-- ===== src/Parsing/Sections.antt =====
-- `split_by_section_letter` of parsing.py and its version with offsets.
pub mod Agree
use katapult.Base.{
  ℕ, ◌+◌, ◌≡◌, refl, ap, ◌∙◌, Bool, true, false, List, [], ◌∷◌, ◌++◌, Option, none, some, arith,
  if◌then◌else◌,
}
use katapult.Base.Text.{Text, strip, splitlines, contains, text_eq, text_dec}
use katapult.Base.Dict.{Dict, lookup, insert, keys}
use katapult.Base.Unicode.{Unicode}
use katapult.Regex.{Regex, Match, match_start, captured}

-- `found_order`, `sections` and `current`.
pub record Split : Type 0 where
  pub found_order : List Text
  pub sections : Dict (List Text)
  pub current : Option Text

abbrev lines_of : Option (List Text) → List Text
lines_of none = []
lines_of (some ls) = ls

-- `current not in sections`
abbrev is_new : Text → Dict (List Text) → Bool
unfolding keys
is_new k d = if contains k (keys d) then false else true

-- A header line of a section.
unfoldable pub enter : Text → Split → Split
unfolding insert keys text_dec
enter k s =
    if is_new k s.sections
    then record {
      found_order = s.found_order ++ k ∷ [];
      sections = insert k [] s.sections;
      current = some k;
    }
    else record s { current = some k }

-- Another line: `sections[current].append(line)`.
unfoldable pub append_line : Text → Option Text → Split → Split
unfolding insert lookup
append_line line none s = s
append_line line (some k) s = record s {
  sections = insert k (lines_of (lookup k s.sections) ++ line ∷ []) s.sections;
}

module _ (u : Unicode) (section_re : Regex) where
  unfoldable pub split_line : Text → Option Match → Split → Split
  unfolding enter append_line
  split_line line none s = append_line line s.current s
  split_line line (some m) s = enter (u.upper (captured 1 m.groups)) s

  unfoldable pub split_lines : List Text → Split → Split
  unfolding split_line match_start strip
  split_lines [] s = s
  split_lines (l ∷ ls) s = split_lines ls (split_line l (match_start section_re (strip l)) s)

  abbrev pub nothing_split : Split
  nothing_split = record { found_order = []; sections = []; current = none }

  unfoldable pub split_by_section_letter : Text → List Text × Dict (List Text)
  unfolding split_lines splitlines
  split_by_section_letter text =
      let s = split_lines (splitlines text) nothing_split in (s.found_order, s.sections)

  -- The same with `offsets`: the number of the line behind the first header of each section.
  unfoldable pub split_line_offsets : ℕ → Text → Option Match → Split × Dict ℕ → Split × Dict ℕ
  unfolding enter append_line
  split_line_offsets idx line none (s, offsets) = (append_line line s.current s, offsets)
  split_line_offsets idx line (some m) (s, offsets) =
      let k = u.upper (captured 1 m.groups) in
      (enter k s, (if is_new k s.sections then insert k (idx + 1) offsets else offsets))

  unfoldable pub split_lines_offsets : ℕ → List Text → Split × Dict ℕ → Split × Dict ℕ
  unfolding split_line_offsets match_start strip
  split_lines_offsets idx [] s = s
  split_lines_offsets idx (l ∷ ls) s =
      split_lines_offsets (idx + 1) ls
        (split_line_offsets idx l (match_start section_re (strip l)) s)

  unfoldable pub split_by_section_letter_with_offsets : Text → List Text × Dict (List Text) × Dict ℕ
  unfolding split_lines_offsets splitlines
  split_by_section_letter_with_offsets text =
      let (s, offsets) = split_lines_offsets 1 (splitlines text) (nothing_split, []) in
      (s.found_order, s.sections, offsets)
