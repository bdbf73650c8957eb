-- ===== src/Base/Members.antt =====
-- Membership in lists of texts.
use mathlib.Core.Path.{◌≡◌, refl}
use mathlib.Core.Logic.{◌↔◌}
use mathlib.Core.Bool.{true, false, ◌||◌}
use mathlib.Core.List.{List, [], ◌∷◌, ◌++◌}
use native.Mathlib.Omega.{arith}
use katapult.Base.Text.{Text, text_eq, contains}
use katapult.Base.Dict.{Dict, keys, insert}

pub contains-append :
    (k : Text) (xs ys : List Text) → contains k (xs ++ ys) ≡ (contains k xs || contains k ys)
contains-append k [] ys = refl
contains-append k (x ∷ xs) ys = ground (arith, contains-append k xs ys)

pub eq-nil_iff : (xs : List Text) → (xs ≡ []) ↔ ((k : Text) → contains k xs ≡ false)
eq-nil_iff [] = (λ e k. refl, λ h. refl)
eq-nil_iff (x ∷ xs) = (λ e. absurd (cc), λ h. absurd (ground (arith, h x)))

pub contains-concat :
    (k p : Text) (xs : List Text) → contains k (xs ++ p ∷ []) ≡ (contains k xs || text_eq k p)
contains-concat k p [] = ground arith
contains-concat k p (x ∷ xs) = ground (arith, contains-concat k p xs)

pub append_nil_iff {ℓ} : {A : Type ℓ} (xs ys : List A) → (xs ++ ys ≡ []) ↔ ((xs ≡ []) × (ys ≡ []))
append_nil_iff [] ys = (λ e. (refl, e), λ h. h.1)
append_nil_iff (x ∷ xs) ys = (λ e. absurd (cc), λ h. absurd (cc))

pub contains_self : (x : Text) (xs : List Text) → contains x (x ∷ xs) ≡ true
contains_self x xs = ground arith

pub contains_later :
    (k x : Text) (xs : List Text) → contains k xs ≡ true → contains k (x ∷ xs) ≡ true
contains_later k x xs h = ground arith

pub same_members :
    (k : Text) (a b : List Text)
    → (contains k a ≡ true → contains k b ≡ true)
    → (contains k b ≡ true → contains k a ≡ true)
    → contains k a ≡ contains k b
same_members k a b f g = ground arith

pub contains-keys-insert {ℓ} :
    {V : Type ℓ} (k j : Text) (v : V) (d : Dict V)
    → contains k (keys (insert j v d)) ≡ (text_eq k j || contains k (keys d))
unfolding keys insert
contains-keys-insert k j v [] = refl
contains-keys-insert k j v ((i, w) ∷ d) = ground (arith, contains-keys-insert k j v d)
