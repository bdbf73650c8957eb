-- ===== src/Base/Count.antt =====
-- Counting the elements that pass a test, and folds that move a measure by a fixed step.
use Prim.Native.Nat.{ℕ, ◌+◌}
use mathlib.Core.Path.{◌≡◌, refl, ◌∙◌}
use mathlib.Core.Bool.{Bool}
use mathlib.Core.List.{List, [], ◌∷◌, ◌++◌, foldl}
use native.Mathlib.Omega.{arith}
use katapult.Base.Tests.{if◌then◌else◌}

module _ {ℓ} {A : Type ℓ} where
  -- How many elements pass the test.
  unfoldable pub count_by : (A → Bool) → List A → ℕ
  count_by p [] = 0
  count_by p (x ∷ xs) = (if p x then 1 else 0) + count_by p xs

  pub count_by-concat :
      (p : A → Bool) (xs : List A) (y : A)
      → count_by p (xs ++ y ∷ []) ≡ count_by p xs + (if p y then 1 else 0)
  unfolding count_by
  count_by-concat p [] y = omega arith
  count_by-concat p (x ∷ xs) y = omega (arith, count_by-concat p xs y)

module _ {ℓ κ μ} {A : Type ℓ} {S : Type κ} {B : Type μ} (f : S → A → S) (view : S → B) where
  -- A fold whose steps keep a view of the state keeps it.
  pub foldl-keeps :
      ((s : S) (x : A) → view (f s x) ≡ view s)
      → (xs : List A) (s : S) → view (foldl f s xs) ≡ view s
  foldl-keeps h [] s = refl
  foldl-keeps h (x ∷ xs) s = foldl-keeps h xs (f s x) ∙ h s x

module _ {ℓ κ μ} {A : Type ℓ} {S : Type κ} (P : S → Type μ) (f : S → A → S) where
  -- A fold whose steps keep a predicate keeps it.
  pub foldl-invariant :
      ((s : S) (x : A) → P s → P (f s x)) → (xs : List A) (s : S) → P s → P (foldl f s xs)
  foldl-invariant h [] s p = p
  foldl-invariant h (x ∷ xs) s p = foldl-invariant h xs (f s x) (h s x p)
