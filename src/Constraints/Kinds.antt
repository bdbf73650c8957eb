-- ===== src/Constraints/Kinds.antt =====
-- The first half of `cross_validate_artifacts` of constraints.py: the constraints by kind of
-- artifact, and the system and the kind that an id names. A set is a list that only membership tests
-- read, but where the program iterates over one, the order is an argument.
use katapult.Base.{
  ℕ, ◌+◌, Bool, false, not, ◌&&◌, ◌||◌, List, [], ◌∷◌, ◌++◌, Option, none, some, ltb, if◌then◌else◌,
}
use katapult.Base.Lists.{length, take, drop, is_nil}
use katapult.Base.Text.{Text, txt, strip, starts_with, split_on, text_dec, fstring}
use katapult.Base.Dict.{Dict, insert}
use katapult.Base.Unicode.{Unicode}
use katapult.Constraints.Data.{IdConstraint, ArtifactKindConstraints, ArtifactRecord}

-- `s.find(t)`, from an index on.
unfoldable pub find_from : ℕ → Text → Text → Option ℕ
unfolding starts_with
find_from i t [] = if is_nil t then some i else none
find_from i t (c ∷ s) =
    let later = find_from (i + 1) t s in if starts_with (c ∷ s) t then some i else later

-- A mark that is found behind the start.
unfoldable pub find_inside : Text → Text → Option ℕ
unfolding find_from
find_inside t s = behind (find_from 0 t s)
  where
    behind : Option ℕ → Option ℕ
    behind none = none
    behind (some i) = if ltb 0 i then some i else none

-- The texts that are not empty.
abbrev pub filled : List Text → List Text
filled [] = []
filled (t ∷ ts) = if is_nil t then filled ts else t ∷ filled ts

module _ (u : Unicode) where
  -- `str(x).strip().lower()`
  unfoldable pub normal : Text → Text
  unfolding strip
  normal t = u.lower (strip t)

  -- `str(art.artifact_kind).strip().upper()`
  unfoldable pub upper_kind : Text → Text
  unfolding strip
  upper_kind t = u.upper (strip t)

  -- `constraints_by_artifact_kind`
  unfoldable pub constraints_by_kind :
      List ArtifactRecord → Dict ArtifactKindConstraints → Dict ArtifactKindConstraints
  unfolding upper_kind insert text_dec
  constraints_by_kind [] d = d
  constraints_by_kind (art ∷ arts) d = constraints_by_kind arts (noted art.constraints)
    where
      noted : Option ArtifactKindConstraints → Dict ArtifactKindConstraints
      noted none = d
      noted (some c) = insert (upper_kind art.artifact_kind) c d

  -- `missing_constraints_kinds`
  unfoldable pub missing_kinds : List ArtifactRecord → List Text
  unfolding upper_kind
  missing_kinds [] = []
  missing_kinds (art ∷ arts) = noted art.constraints (missing_kinds arts)
    where
      noted : Option ArtifactKindConstraints → List Text → List Text
      noted none rest = upper_kind art.artifact_kind ∷ rest
      noted (some c) rest = rest

  -- The kinds of a list of constraints that are not blank.
  unfoldable pub kinds_of : List IdConstraint → List Text
  unfolding normal
  kinds_of [] = []
  kinds_of (ic ∷ ics) =
      let rest = kinds_of ics in if is_nil (normal ic.kind) then rest else normal ic.kind ∷ rest

  -- `composite_nested_kinds_by_base_kind`
  unfoldable pub nested_kinds : Dict ArtifactKindConstraints → Dict (List Text) → Dict (List Text)
  unfolding kinds_of insert text_dec
  nested_kinds [] d = d
  nested_kinds ((ak, c) ∷ cs) d =
      nested_kinds cs
        (if is_nil (kinds_of c.defined_id) then d else insert (normal ak) (kinds_of c.defined_id) d)

  -- `_cross_all_kind_tokens`: the constraints have no field `referenced_id`.
  unfoldable pub kind_tokens : Dict ArtifactKindConstraints → List Text
  unfolding kinds_of
  kind_tokens [] = []
  kind_tokens ((ak, c) ∷ cs) = kinds_of c.defined_id ++ kind_tokens cs

  unfoldable pub is_cpt : Text → Bool
  unfolding starts_with txt
  is_cpt cpt = starts_with (u.lower cpt) (txt "cpt-")

  -- A system is among the id's, as the text between the first two dashes.
  unfoldable pub names_system : Text → Text → Bool
  unfolding starts_with txt
  names_system cpt sys = starts_with (u.lower cpt) (fstring (txt "cpt-" ∷ sys ∷ txt "-" ∷ []))

  abbrev pub longer : Text → Option Text → Option Text
  longer sys none = some sys
  longer sys (some best) = if ltb (length best) (length sys) then some sys else some best

  -- The longest of the systems that the id names: two of one length cannot both be named.
  unfoldable pub longest_system : Text → List Text → Option Text → Option Text
  unfolding names_system
  longest_system cpt [] best = best
  longest_system cpt (sys ∷ systems) best =
      longest_system cpt systems (if names_system cpt sys then longer sys best else best)

  unfoldable pub marker_of : Text → Text
  unfolding txt
  marker_of kt = fstring (txt "-" ∷ kt ∷ txt "-" ∷ [])

  abbrev pub further : Option ℕ → Option ℕ → Option ℕ
  further none best = best
  further (some i) none = some i
  further (some i) (some j) = if ltb j i then some i else some j

  -- The last of the places where the tokens' marks stand.
  unfoldable pub rightmost : Text → List Text → Option ℕ → Option ℕ
  unfolding marker_of find_inside
  rightmost s [] best = best
  rightmost s (kt ∷ tokens) best = rightmost s tokens (further (find_inside (marker_of kt) s) best)

  abbrev pub second_part : List Text → Option Text
  second_part (a ∷ b ∷ c ∷ parts) = some (u.lower b)
  second_part _ = none

  unfoldable pub unregistered_system : List Text → Text → Option Text
  unfolding rightmost split_on
  unregistered_system tokens cpt = at (rightmost (drop 4 cpt) tokens none)
    where
      at : Option ℕ → Option Text
      at (some i) = some (u.lower (take i (drop 4 cpt)))
      at none = second_part (split_on b'-' cpt)

  -- `match_system_from_id(cpt)`
  unfoldable pub match_system_from_id : List Text → List Text → Text → Option Text
  unfolding unregistered_system longest_system is_cpt
  match_system_from_id systems tokens cpt =
      if not (is_cpt cpt)
      then none
      else if is_nil systems
      then unregistered_system tokens cpt
      else longest_system cpt systems none

  -- `is_external_system_ref(cpt)`
  unfoldable pub names_any : Text → List Text → Bool
  unfolding names_system
  names_any cpt [] = false
  names_any cpt (sys ∷ systems) = names_system cpt sys || names_any cpt systems

  unfoldable pub is_external_system_ref : List Text → Text → Bool
  unfolding names_any is_cpt
  is_external_system_ref systems cpt =
      not (is_nil systems) && (is_cpt cpt && not (names_any cpt systems))
