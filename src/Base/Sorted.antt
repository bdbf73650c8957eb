-- ===== src/Base/Sorted.antt =====
-- `sorted(set(…))` on texts: strictly increasing by code points, each text once.
use mathlib.Core.Path.{◌≡◌, refl}
use mathlib.Core.Bool.{Bool, true, false, ◌||◌}
use mathlib.Core.List.{List, [], ◌∷◌}
use native.Mathlib.Omega.{arith}
use katapult.Base.Tests.{ltb, if◌then◌else◌}
use katapult.Base.Text.{Text, text_eq, contains}

-- `s < t`
unfoldable pub text_lt : Text → Text → Bool
text_lt s [] = false
text_lt [] (y ∷ t) = true
text_lt (x ∷ s) (y ∷ t) =
    let rest = text_lt s t in if ltb x y then true else if ltb y x then false else rest

unfoldable pub insert_sorted : Text → List Text → List Text
unfolding text_lt
insert_sorted t [] = t ∷ []
insert_sorted t (s ∷ ss) =
    let rest = insert_sorted t ss in
    if text_eq t s then s ∷ ss else if text_lt t s then t ∷ s ∷ ss else s ∷ rest

unfoldable pub sorted_set : List Text → List Text
unfolding insert_sorted
sorted_set [] = []
sorted_set (t ∷ ts) = insert_sorted t (sorted_set ts)

pub contains-insert_sorted :
    (k t : Text) (ss : List Text) → contains k (insert_sorted t ss) ≡ (text_eq k t || contains k ss)
unfolding insert_sorted
contains-insert_sorted k t [] = refl
contains-insert_sorted k t (s ∷ ss) = ground (arith, contains-insert_sorted k t ss)

pub contains-sorted_set : (k : Text) (ts : List Text) → contains k (sorted_set ts) ≡ contains k ts
unfolding sorted_set
contains-sorted_set k [] = refl
contains-sorted_set k (t ∷ ts) =
    ground (arith, contains-insert_sorted k t (sorted_set ts), contains-sorted_set k ts)
