-- ===== src/Parsing/Sections/Agree.antt =====
-- The two splits of parsing.py against each other.
use katapult.Base.{
  ℕ, ◌+◌, ◌≡◌, refl, ap, ◌∙◌, true, false, List, [], ◌∷◌, ◌++◌, Option, none, some, arith,
  if◌then◌else◌, inl, inr, Bool-cases,
}
use katapult.Base.Members.{contains-concat}
use katapult.Base.Text.{Text, strip, splitlines, contains}
use katapult.Base.Dict.{Dict, lookup, insert, keys, keys-insert}
use katapult.Base.Unicode.{Unicode}
use katapult.Regex.{Regex, Match, match_start, captured}
use katapult.Parsing.Sections.{
  Split, enter, append_line, split_line, split_lines, nothing_split, is_new, lines_of,
}
use katapult.Parsing.Sections.{split_by_section_letter, split_line_offsets, split_lines_offsets}
use katapult.Parsing.Sections.{split_by_section_letter_with_offsets}

-- The sections and the offsets have the keys of `found_order`, in its order, and the current
-- section is one of them.
record IsOrdered (s : Split) (offsets : Dict ℕ) : Type 0 where
  sections_are : keys s.sections ≡ s.found_order
  offsets_are : keys offsets ≡ s.found_order
  current_is : (k : Text) → s.current ≡ some k → contains k s.found_order ≡ true

added : (k j : Text) (order : List Text) → some k ≡ some j → contains j (order ++ k ∷ []) ≡ true
added k j order e = ground (arith, contains-concat j k order)

enter-IsOrdered :
    (k : Text) (n : ℕ) (s : Split) (o : Dict ℕ)
    → IsOrdered s o
    → IsOrdered (enter k s) (if is_new k s.sections then insert k n o else o)
unfolding enter
enter-IsOrdered k n s o h = elim (Bool-cases (contains k (keys s.sections))) [
  | inl old ↦ rw old (record {
    sections_are = h.sections_are;
    offsets_are = h.offsets_are;
    current_is = λ j e. ground (arith, h.sections_are);
  })
  | inr new ↦
      let none_yet : contains k (keys o) ≡ false = rw h.offsets_are (rw h.sections_are at new) in
      rw new (record {
        sections_are =
            keys-insert k [] s.sections
            ∙ rw new (ap (λ (t : List Text). t ++ k ∷ []) h.sections_are);
        offsets_are =
            keys-insert k n o ∙ rw none_yet (ap (λ (t : List Text). t ++ k ∷ []) h.offsets_are);
        current_is = λ j e. let same : some k ≡ some j = e in added k j s.found_order same;
      })
]

append_line-IsOrdered :
    (line : Text) (c : Option Text) (s : Split) (o : Dict ℕ)
    → s.current ≡ c
    → IsOrdered s o
    → IsOrdered (append_line line c s) o
unfolding append_line
append_line-IsOrdered line none s o e h = h
append_line-IsOrdered line (some k) s o e h = record {
  sections_are =
      keys-insert k (lines_of (lookup k s.sections) ++ line ∷ []) s.sections
      ∙ rw (h.sections_are, h.current_is k e);
  offsets_are = h.offsets_are;
  current_is = h.current_is;
}

module _ (u : Unicode) (section_re : Regex) where
  split_line-offsets :
      (idx : ℕ) (line : Text) (m : Option Match) (s : Split) (o : Dict ℕ)
      → (split_line_offsets u section_re idx line m (s, o)).0 ≡ split_line u section_re line m s
  unfolding split_line_offsets split_line
  split_line-offsets idx line none s o = refl
  split_line-offsets idx line (some m) s o = refl

  split_line_offsets-IsOrdered :
      (idx : ℕ) (line : Text) (m : Option Match) (s : Split) (o : Dict ℕ)
      → IsOrdered s o
      → let t = split_line_offsets u section_re idx line m (s, o) in IsOrdered t.0 t.1
  unfolding split_line_offsets
  split_line_offsets-IsOrdered idx line none s o h = append_line-IsOrdered line s.current s o refl h
  split_line_offsets-IsOrdered idx line (some m) s o h =
      enter-IsOrdered (u.upper (captured 1 m.groups)) (idx + 1) s o h

  split_lines-offsets :
      (idx : ℕ) (ls : List Text) (s : Split) (o : Dict ℕ)
      → (split_lines_offsets u section_re idx ls (s, o)).0 ≡ split_lines u section_re ls s
  unfolding split_lines_offsets split_lines
  split_lines-offsets idx [] s o = refl
  split_lines-offsets idx (l ∷ ls) s o =
      let m = match_start section_re (strip l) in
      let next = split_line_offsets u section_re idx l m (s, o) in
      split_lines-offsets (idx + 1) ls next.0 next.1
      ∙ ap (split_lines u section_re ls) (split_line-offsets idx l m s o)

  split_lines_offsets-IsOrdered :
      (idx : ℕ) (ls : List Text) (s : Split) (o : Dict ℕ)
      → IsOrdered s o
      → let t = split_lines_offsets u section_re idx ls (s, o) in IsOrdered t.0 t.1
  unfolding split_lines_offsets
  split_lines_offsets-IsOrdered idx [] s o h = h
  split_lines_offsets-IsOrdered idx (l ∷ ls) s o h =
      let m = match_start section_re (strip l) in
      let next = split_line_offsets u section_re idx l m (s, o) in
      split_lines_offsets-IsOrdered (idx + 1) ls next.0 next.1
        (split_line_offsets-IsOrdered idx l m s o h)

  -- The split with offsets finds the same order and the same sections as the plain one, and its
  -- sections and offsets are those of the order and no other.
  pub split_by_section_letter-agree :
      (text : Text)
      → let (order, sections, offsets) = split_by_section_letter_with_offsets u section_re text in
        ((order, sections) ≡ split_by_section_letter u section_re text)
        × (keys sections ≡ order)
        × (keys offsets ≡ order)
  unfolding split_by_section_letter split_by_section_letter_with_offsets
  split_by_section_letter-agree text =
      let ls = splitlines text in
      let start = nothing_split u section_re in
      let same = split_lines-offsets 1 ls start [] in
      let ordered = split_lines_offsets-IsOrdered 1 ls start [] (record {
        sections_are = unfold keys in refl;
        offsets_are = unfold keys in refl;
        current_is = λ k e. absurd (cc);
      }) in
      (
        ap (λ (s : Split). (s.found_order, s.sections)) same,
        ordered.sections_are,
        ordered.offsets_are,
      )
