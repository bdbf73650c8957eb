-- ===== src/Document/Steps/Parents.antt =====
-- The ids under which the instructions of `scan_cdsl_instructions` stand, against the hits of
-- `scan_cpt_ids`.
use mathlib.Core.List.{append_assoc}
use katapult.Base.{
  ℕ, ◌+◌, ◌≤◌, ◌≡◌, refl, Bool, true, false, not, ◌&&◌, ◌||◌, List, [], ◌∷◌, ◌++◌, Option, none,
  some, arith, ltb, if◌then◌else◌, Bool-cases, inl, inr,
}
use katapult.Base.Lists.{is_nil, all}
use katapult.Base.Text.{Text, strip, text_eq}
use katapult.Base.Unicode.{Unicode}
use katapult.Regex.{Match, match_start, captured}
use katapult.Document.Patterns.{
  id_def_re, cdsl_line_re, cdsl_phase_num_re, id_group, id2_group, id3_group, id4_group,
  phase_group,
}
use katapult.Document.Ids.{
  HitType, definition, reference, IdHit, is_fence, or_text, defined, definition_hits, line_hits,
  ids_from, scan_cpt_ids,
}
use katapult.Document.Ids.Lines.{added}
use katapult.Document.Steps.{
  Step, parent_of, or_parent, step_of, with_phase, step_on, definition_or_step, step_line,
  steps_from, scan_cdsl_instructions,
}

abbrev pub is_definition : HitType → Bool
is_definition definition = true
is_definition reference = false

-- One of the hits defines the id on a line above the number.
unfoldable pub is_defined : List IdHit → ℕ → Text → Bool
is_defined [] k id = false
is_defined (h ∷ hits) k id =
    (is_definition h.hit_type && (text_eq h.id id && ltb h.line k)) || is_defined hits k id

unfoldable pub is_owned : List IdHit → ℕ → Option Text → Bool
unfolding is_defined
is_owned hits k none = true
is_owned hits k (some id) = is_defined hits k id

-- The step stands under no id, or under one that a line above it defines.
unfoldable pub has_parent : List IdHit → Step → Bool
unfolding is_owned
has_parent hits s = is_owned hits s.line s.parent_id

defined_later :
    (a b : List IdHit) (k j : ℕ) (id : Text)
    → k ≤ j
    → is_defined a k id ≡ true
    → is_defined (a ++ b) j id ≡ true
unfolding is_defined
defined_later [] b k j id h e = cc
defined_later (x ∷ a) b k j id h e = ground (arith, defined_later a b k j id h)

owned_later :
    (a b : List IdHit) (k j : ℕ) (o : Option Text)
    → k ≤ j
    → is_owned a k o ≡ true
    → is_owned (a ++ b) j o ≡ true
unfolding is_owned
owned_later a b k j none h e = refl
owned_later a b k j (some id) h e = defined_later a b k j id h e

defined_last :
    (a : List IdHit) (h : IdHit) (k : ℕ)
    → h.hit_type ≡ definition
    → ltb h.line k ≡ true
    → is_defined (a ++ h ∷ []) k h.id ≡ true
unfolding is_defined
defined_last [] h k d l = ground arith
defined_last (x ∷ a) h k d l = ground (arith, defined_last a h k d l)

or_text_four :
    (a b c d : Text) (x : ℕ) (id : Text)
    → or_text a (or_text b c) ≡ x ∷ id
    → or_text a (or_text b (or_text c d)) ≡ x ∷ id
or_text_four (y ∷ a) b c d x id h = h
or_text_four [] (y ∷ b) c d x id h = h
or_text_four [] [] (y ∷ c) d x id h = h
or_text_four [] [] [] d x id h = cc

all_append :
    {A : Type 0} (p : A → Bool) (xs ys : List A)
    → all p xs ≡ true
    → all p ys ≡ true
    → all p (xs ++ ys) ≡ true
unfolding all
all_append p [] ys h k = k
all_append p (x ∷ xs) ys h k = ground (arith, all_append p xs ys)

module _ (u : Unicode) where
  -- A step that a line brings stands under the parent that the line has.
  stepped :
      (hits : List IdHit) (n : ℕ) (parent : Option Text) (o : Option Match)
      → is_owned hits n parent ≡ true
      → all (has_parent hits) (step_on u n parent o) ≡ true
  unfolding step_on step_of has_parent all
  stepped hits n parent none h = refl
  stepped hits n parent (some m) h =
      phased (match_start (cdsl_phase_num_re u) (strip (captured phase_group m.groups)))
    where
      phased : (o : Option Match) → all (has_parent hits) (with_phase u n parent m o) ≡ true
      phased none = refl
      phased (some mph) = rw h refl

  found_matched :
      (hits : List IdHit) (n : ℕ) (raw : Text) (parent : Option Text) (o : Option Match)
      → is_owned hits n parent ≡ true
      → all (has_parent hits) (definition_or_step u n raw parent o).0 ≡ true
  unfolding definition_or_step
  found_matched hits n raw parent none h =
      stepped hits n parent (match_start (cdsl_line_re u) raw) h
  found_matched hits n raw parent (some m) h = unfold all in refl

  found-owned :
      (hits : List IdHit) (n : ℕ) (raw : Text) (parent : Option Text)
      → is_owned hits n parent ≡ true
      → all (has_parent hits) (step_line u n raw parent).0 ≡ true
  unfolding step_line
  found-owned hits n raw parent h = elim (Bool-cases (is_nil (strip raw))) [
    | inl e ↦ rw e (unfold all in refl)
    | inr e ↦ rw e (found_matched hits n raw parent (match_start (id_def_re u) (strip raw)) h)
  ]

  -- The id that the definition line gives is the one that the hit carries.
  named :
      (seen : List IdHit) (n : ℕ) (m : Match) (parent : Option Text) (id : Text)
      → parent_of m ≡ id
      → is_owned seen n parent ≡ true
      → is_owned (seen ++ defined u n m ∷ []) (n + 1) (or_parent id parent) ≡ true
  unfolding parent_of defined is_owned
  named seen n m parent [] e h = owned_later seen _ n (n + 1) parent (omega arith) h
  named seen n m parent (x ∷ id) e h =
      rw
        (← or_text_four (captured id_group m.groups) (captured id2_group m.groups)
          (captured id3_group m.groups) (captured id4_group m.groups) x id e)
        (defined_last seen (defined u n m) (n + 1) refl (ground arith))

  parent_matched :
      (seen : List IdHit) (n : ℕ) (raw : Text) (parent : Option Text) (o : Option Match)
      → is_owned seen n parent ≡ true
      → is_owned
          (seen ++ definition_hits u n raw (strip raw) o)
          (n + 1)
          (definition_or_step u n raw parent o).1
        ≡ true
  unfolding definition_or_step definition_hits
  parent_matched seen n raw parent none h = owned_later seen _ n (n + 1) parent (omega arith) h
  parent_matched seen n raw parent (some m) h = named seen n m parent (parent_of m) refl h

  parent-owned :
      (seen : List IdHit) (n : ℕ) (raw : Text) (parent : Option Text)
      → is_owned seen n parent ≡ true
      → is_owned (seen ++ line_hits u n raw) (n + 1) (step_line u n raw parent).1 ≡ true
  unfolding step_line line_hits
  parent-owned seen n raw parent h = elim (Bool-cases (is_nil (strip raw))) [
    | inl e ↦ rw e (owned_later seen [] n (n + 1) parent (omega arith) h)
    | inr e ↦ rw e (parent_matched seen n raw parent (match_start (id_def_re u) (strip raw)) h)
  ]

  -- What a line adds, inside a fence or not.
  abbrev turn : ℕ → Bool → Text → Option Text → List Step × Option Text
  turn n f raw parent =
      if is_fence raw then ([], parent) else if f then ([], parent) else step_line u n raw parent

  turn-owned :
      (hits : List IdHit) (n : ℕ) (f : Bool) (raw : Text) (parent : Option Text)
      → is_owned hits n parent ≡ true
      → all (has_parent hits) (turn n f raw parent).0 ≡ true
  turn-owned hits n f raw parent h = elim (Bool-cases (is_fence raw)) [
    | inl e ↦ rw e (unfold all in refl)
    | inr e ↦ rw e (elim (Bool-cases f) [
      | inl g ↦ rw g (unfold all in refl)
      | inr g ↦ rw g (found-owned hits n raw parent h)
    ])
  ]

  turn_parent :
      (seen : List IdHit) (n : ℕ) (f : Bool) (raw : Text) (parent : Option Text)
      → is_owned seen n parent ≡ true
      → is_owned (seen ++ added u n f raw) (n + 1) (turn n f raw parent).1 ≡ true
  turn_parent seen n f raw parent h =
      let same = owned_later seen [] n (n + 1) parent (omega arith) h in
      elim (Bool-cases (is_fence raw)) [
        | inl e ↦ rw e same
        | inr e ↦ rw e (elim (Bool-cases f) [
          | inl g ↦ rw g same
          | inr g ↦ rw g (parent-owned seen n raw parent h)
        ])
      ]

  owned-steps_from :
      (seen : List IdHit) (n : ℕ) (f : Bool) (parent : Option Text) (lines : List Text)
      → is_owned seen n parent ≡ true
      → all (has_parent (seen ++ ids_from u n f lines)) (steps_from u n f parent lines) ≡ true
  unfolding ids_from steps_from
  owned-steps_from seen n f parent [] h = unfold all in refl
  owned-steps_from seen n f parent (raw ∷ lines) h =
      let later = if is_fence raw then not f else f in
      all_append (has_parent _) (turn n f raw parent).0 _
        (turn-owned _ n f raw parent (owned_later seen _ n n parent (omega arith) h))
        (rw (← append_assoc seen (added u n f raw) (ids_from u (n + 1) later lines)) (
          owned-steps_from (seen ++ added u n f raw) (n + 1) later (turn n f raw parent).1 lines
            (turn_parent seen n f raw parent h)))

  -- Every instruction of an artifact stands under no id, or under an id that the scan for ids finds
  -- defined on a line above it.
  pub scan_cdsl_instructions-owned :
      (lines : Option (List Text))
      → all (has_parent (scan_cpt_ids u lines)) (scan_cdsl_instructions u lines) ≡ true
  unfolding scan_cpt_ids scan_cdsl_instructions
  scan_cdsl_instructions-owned none = unfold all in refl
  scan_cdsl_instructions-owned (some lines) =
      owned-steps_from [] 1 false none lines (unfold is_owned in refl)
