-- ===== src/Base/Entries.antt =====
-- Counting and constraining the entries of a dict, keys included.
use Prim.Native.Nat.{ℕ, ◌+◌}
use mathlib.Core.Path.{◌≡◌}
use mathlib.Core.Bool.{Bool}
use mathlib.Core.Option.{none, some}
use mathlib.Core.List.{[], ◌∷◌}
use native.Mathlib.Omega.{arith}
use katapult.Base.Tests.{if◌then◌else◌}
use katapult.Base.Lists.{All}
use katapult.Base.Count.{count_by}
use katapult.Base.Text.{Text, text_dec}
use katapult.Base.Dict.{Dict, lookup, insert, erase}

module _ {ℓ} {V : Type ℓ} where
  -- How many values pass the test.
  abbrev pub count_values : (V → Bool) → Dict V → ℕ
  count_values t d = count_by (λ (e : Text × V). t e.1) d

  pub count-insert :
      (t : V → Bool) (k : Text) (v : V) (d : Dict V)
      → lookup k d ≡ none
      → count_values t (insert k v d) ≡ count_values t d + (if t v then 1 else 0)
  unfolding lookup insert count_by
  count-insert t k v [] h = omega arith
  count-insert t k v ((j, w) ∷ d) h = ground (arith, count-insert t k v d)

  pub count-erase :
      (t : V → Bool) (k : Text) (d : Dict V) (v : V)
      → lookup k d ≡ some v
      → count_values t (erase k d) + (if t v then 1 else 0) ≡ count_values t d
  unfolding lookup erase count_by
  count-erase t k [] v h = cc
  count-erase t k ((j, w) ∷ d) v h = ground (arith, count-erase t k d v)

  module _ {κ} (P : Text × V → Type κ) where
    pub entries-insert : (k : Text) (v : V) (d : Dict V) → P (k, v) → All P d → All P (insert k v d)
    unfolding insert
    entries-insert k v [] p h = (p, tt)
    entries-insert k v ((j, w) ∷ d) p h = ground (arith, entries-insert k v d p h.1)

    pub entries-erase : (k : Text) (d : Dict V) → All P d → All P (erase k d)
    unfolding erase
    entries-erase k [] h = tt
    entries-erase k ((j, w) ∷ d) h = ground (arith, entries-erase k d h.1)

    pub entries-lookup : (k : Text) (d : Dict V) (v : V) → All P d → lookup k d ≡ some v → P (k, v)
    unfolding lookup
    entries-lookup k [] v h e = cc
    entries-lookup k ((j, w) ∷ d) v h e = elim (text_dec k j) [
      | yes same ↦ let value : w ≡ v = ground arith in rw (same, ← value) h.0
      | no differ ↦ entries-lookup k d v h.1 (ground arith)
    ]
