-- ===== src/Constraints/Extract.antt =====
-- `extract_kind_from_id` of constraints.py: the kind that an id names.
use mathlib.Core.List.{reverse}
use katapult.Base.{ℕ, not, ◌&&◌, List, [], ◌∷◌, Option, none, some, ltb, leb, if◌then◌else◌}
use katapult.Base.Lists.{length, drop, is_nil}
use katapult.Base.Sorted.{sorted_set}
use katapult.Base.Text.{
  Text, txt, strip, starts_with, split_on, text_eq, text_dec, contains, fstring,
}
use katapult.Base.Dict.{Dict, lookup}
use katapult.Base.Unicode.{Unicode}
use katapult.Constraints.Kinds.{filled, find_inside, normal, is_cpt, marker_of}

-- What the ids are read by: the registered systems, the kinds nested in a kind, the kind tokens, and
-- the order in which Python iterates over a set.
pub record Vocabulary : Type 0 where
  pub systems : List Text
  pub nested : Dict (List Text)
  pub tokens : List Text
  pub iteration : List Text → List Text

module _ (u : Unicode) where
  -- The first of the parts that is a nested kind and not the base.
  unfoldable pub nested_part : Text → List Text → List Text → Option Text
  unfolding normal text_dec
  nested_part base kinds [] = none
  nested_part base kinds (p ∷ parts) =
      let rest = nested_part base kinds parts in
      if contains (normal u p) kinds && not (text_eq (normal u p) base)
      then some (normal u p)
      else rest

  abbrev pub nested_kind : Text → List Text → Option (List Text) → Option Text
  unfolding nested_part
  nested_kind base parts none = none
  nested_kind base parts (some kinds) =
      if not (is_nil kinds) && leb 4 (length parts)
      then nested_part base kinds (reverse (drop 2 parts))
      else none

  -- `{str(k).strip().lower() for k in tokens if str(k).strip()}`
  abbrev pub normal_tokens : List Text → List Text
  unfolding strip normal
  normal_tokens [] = []
  normal_tokens (k ∷ tokens) =
      let rest = normal_tokens tokens in if is_nil (strip k) then rest else normal u k ∷ rest

  abbrev pub nearer : Text → Option ℕ → Option (ℕ × Text) → Option (ℕ × Text)
  nearer kt none best = best
  nearer kt (some i) none = some (i, kt)
  nearer kt (some i) (some (j, k)) = if ltb i j then some (i, kt) else some (j, k)

  -- The token whose mark stands first, the first of them in the order of iteration.
  unfoldable pub leftmost : Text → List Text → Option (ℕ × Text) → Option (ℕ × Text)
  unfolding marker_of find_inside
  leftmost s [] best = best
  leftmost s (kt ∷ tokens) best =
      leftmost s tokens (nearer kt (find_inside (marker_of u kt) s) best)

  abbrev pub kind_or : Text → Option (ℕ × Text) → Text
  kind_or base none = base
  kind_or base (some (i, kt)) = kt

  -- The kind, where the first part is no base of a nested one.
  unfoldable pub flat_kind : Vocabulary → Text → Text → Text
  unfolding leftmost normal_tokens sorted_set text_dec
  flat_kind v base remainder =
      let tokens = sorted_set (normal_tokens v.tokens) in
      if contains base tokens
      then base
      else kind_or base (leftmost (u.lower remainder) (v.iteration tokens) none)

  unfoldable pub kind_of_parts : Vocabulary → Text → List Text → Option Text
  unfolding flat_kind nested_kind normal lookup text_dec
  kind_of_parts v remainder [] = none
  kind_of_parts v remainder (p ∷ parts) =
      let base = normal u p in nested_or (nested_kind base (p ∷ parts) (lookup base v.nested))
    where
      nested_or : Option Text → Option Text
      nested_or (some k) = some k
      nested_or none = some (flat_kind v (normal u p) remainder)

  -- `extract_kind_from_id(cpt, system)`
  unfoldable pub extract_kind_from_id : Vocabulary → Text → Option Text → Option Text
  unfolding kind_of_parts is_cpt starts_with split_on txt
  extract_kind_from_id v cpt none = none
  extract_kind_from_id v cpt (some system) =
      let prefix = fstring (txt "cpt-" ∷ system ∷ txt "-" ∷ []) in
      let remainder = drop (length prefix) cpt in
      if not (is_cpt u cpt)
      then none
      else if not (starts_with (u.lower cpt) (u.lower prefix))
      then none
      else kind_of_parts v remainder (filled (split_on b'-' remainder))
