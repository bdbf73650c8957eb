-- ===== src/Base/Dict.antt =====
-- Python's `dict` with text keys, in insertion order.
use mathlib.Core.Path.{◌≡◌, refl}
use mathlib.Core.Bool.{false}
use mathlib.Core.Option.{Option, none, some}
use mathlib.Core.List.{List, [], ◌∷◌, ◌++◌}
use native.Mathlib.Omega.{arith}
use katapult.Base.Tests.{if◌then◌else◌}
use katapult.Base.Lists.{All}
use katapult.Base.Text.{Text, text_eq, contains}

abbrev pub Dict {ℓ} : Type ℓ → Type ℓ
Dict V = List (Text × V)

module _ {ℓ} {V : Type ℓ} where
  -- `d.get(k)`
  unfoldable pub lookup : Text → Dict V → Option V
  lookup k [] = none
  lookup k ((j, v) ∷ d) = if text_eq k j then some v else lookup k d

  -- `d[k] = v`: a key that is there keeps its place.
  unfoldable pub insert : Text → V → Dict V → Dict V
  insert k v [] = (k, v) ∷ []
  insert k v ((j, w) ∷ d) = if text_eq k j then (k, v) ∷ d else (j, w) ∷ insert k v d

  -- `d.pop(k)` of a key that is there. A dict holds a key at most once.
  unfoldable pub erase : Text → Dict V → Dict V
  erase k [] = []
  erase k ((j, w) ∷ d) = if text_eq k j then d else (j, w) ∷ erase k d

  -- `list(d)`
  unfoldable pub keys : Dict V → List Text
  keys [] = []
  keys ((j, v) ∷ d) = j ∷ keys d

  pub lookup-insert :
      (j k : Text) (v : V) (d : Dict V)
      → lookup j (insert k v d) ≡ (if text_eq j k then some v else lookup j d)
  unfolding lookup insert
  lookup-insert j k v [] = refl
  lookup-insert j k v ((i, w) ∷ d) = ground (arith, lookup-insert j k v d)

  pub lookup-keys : (k : Text) (d : Dict V) → contains k (keys d) ≡ false → lookup k d ≡ none
  unfolding lookup keys
  lookup-keys k [] h = refl
  lookup-keys k ((j, v) ∷ d) h = ground (arith, lookup-keys k d)

  -- A predicate on the entries is kept by the operations, and holds of what is looked up.
  pub All-insert {κ} :
      (P : V → Type κ) (k : Text) (v : V) (d : Dict V)
      → P v
      → All (λ (e : Text × V). P e.1) d
      → All (λ (e : Text × V). P e.1) (insert k v d)
  unfolding insert
  All-insert P k v [] p h = (p, tt)
  All-insert P k v ((j, w) ∷ d) p h = ground (arith, All-insert P k v d p h.1)

  pub All-erase {κ} :
      (P : V → Type κ) (k : Text) (d : Dict V)
      → All (λ (e : Text × V). P e.1) d
      → All (λ (e : Text × V). P e.1) (erase k d)
  unfolding erase
  All-erase P k [] h = tt
  All-erase P k ((j, w) ∷ d) h = ground (arith, All-erase P k d h.1)

  pub All-lookup {κ} :
      (P : V → Type κ) (k : Text) (d : Dict V) (v : V)
      → All (λ (e : Text × V). P e.1) d
      → lookup k d ≡ some v
      → P v
  unfolding lookup
  All-lookup P k [] v h e = cc
  All-lookup P k ((j, w) ∷ d) v h e = ground (arith, All-lookup P k d v h.1)

  -- A write keeps the order of the keys, and puts a new key behind them.
  pub keys-insert :
      (k : Text) (v : V) (d : Dict V)
      → keys (insert k v d) ≡ (if contains k (keys d) then keys d else keys d ++ k ∷ [])
  unfolding keys insert
  keys-insert k v [] = refl
  keys-insert k v ((j, w) ∷ d) = ground (arith, keys-insert k v d)
