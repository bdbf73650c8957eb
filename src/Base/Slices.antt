-- ===== src/Base/Slices.antt =====
-- Slices of slices, and how long they are.
use Prim.Native.Nat.{ℕ, zero, suc, ◌+◌, ◌-◌, ◌≤◌}
use mathlib.Core.Path.{◌≡◌, refl, ap, ◌∙◌}
use mathlib.Core.List.{List, [], ◌∷◌}
use native.Mathlib.Omega.{arith}
use katapult.Base.Lists.{length, take, drop, slice}

module _ {ℓ} {A : Type ℓ} where
  drop_nil : (n : ℕ) → drop {A = A} n [] ≡ []
  drop_nil zero = refl
  drop_nil (suc n) = refl

  drop-drop : (a k : ℕ) (xs : List A) → drop k (drop a xs) ≡ drop (a + k) xs
  drop-drop zero k xs = let e : 0 + k ≡ k = omega arith in rw e refl
  drop-drop (suc a) k [] = let e : suc a + k ≡ suc (a + k) = omega arith in rw e (drop_nil k)
  drop-drop (suc a) k (x ∷ xs) =
      let e : suc a + k ≡ suc (a + k) = omega arith in rw e (drop-drop a k xs)

  take_nil : (n : ℕ) → take {A = A} n [] ≡ []
  take_nil zero = refl
  take_nil (suc n) = refl

  drop-take : (k n : ℕ) (xs : List A) → drop k (take n xs) ≡ take (n - k) (drop k xs)
  drop-take zero n xs = let e : n - 0 ≡ n = omega arith in rw e refl
  drop-take (suc k) zero xs = let e : 0 - suc k ≡ 0 = omega arith in rw e refl
  drop-take (suc k) (suc n) [] = rw (take_nil (suc n - suc k)) refl
  drop-take (suc k) (suc n) (x ∷ xs) =
      let e : suc n - suc k ≡ n - k = omega arith in rw e (drop-take k n xs)

  take-take : (m n : ℕ) (xs : List A) → m ≤ n → take m (take n xs) ≡ take m xs
  take-take zero n xs h = refl
  take-take (suc m) zero xs h = absurd (omega arith)
  take-take (suc m) (suc n) [] h = refl
  take-take (suc m) (suc n) (x ∷ xs) h = ap (◌∷◌ x) (take-take m n xs (omega arith))

  pub drop-slice : (k a b : ℕ) (xs : List A) → drop k (slice a b xs) ≡ slice (a + k) b xs
  drop-slice k a b xs =
      let e : b - a - k ≡ b - (a + k) = omega arith in
      drop-take k (b - a) (drop a xs) ∙ rw (drop-drop a k xs, e) refl

  pub take-slice :
      (m a b : ℕ) (xs : List A) → a + m ≤ b → take m (slice a b xs) ≡ slice a (a + m) xs
  take-slice m a b xs h =
      let e : a + m - a ≡ m = omega arith in
      take-take m (b - a) (drop a xs) (omega arith) ∙ rw e refl

  length-take : (n : ℕ) (xs : List A) → n ≤ length xs → length (take n xs) ≡ n
  length-take zero xs h = refl
  length-take (suc n) [] h = absurd (omega arith)
  length-take (suc n) (x ∷ xs) h = ap suc (length-take n xs (omega arith))

  pub length-drop : (n : ℕ) (xs : List A) → length (drop n xs) ≡ length xs - n
  length-drop zero xs = omega arith
  length-drop (suc n) [] = omega arith
  length-drop (suc n) (x ∷ xs) = omega (arith, length-drop n xs)

  pub length-slice : (a b : ℕ) (xs : List A) → b ≤ length xs → length (slice a b xs) ≡ b - a
  length-slice a b xs h = let e = length-drop a xs in length-take (b - a) (drop a xs) (omega arith)
