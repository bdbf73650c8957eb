-- ===== src/Base/Text.antt =====
-- Python's `str` as a list of code points, with the methods that the program calls on it.
use Prim.Native.Char.{code}
use Prim.Native.Nat.{ℕ, zero, suc, ◌+◌, ◌/◌, ◌%◌}
use Prim.Native.String.{String}
use mathlib.Core.Path.{◌≡◌, refl}
use mathlib.Core.Logic.{◌↔◌, ite, dite}
use mathlib.Core.Bool.{Bool, true, false, not, ◌&&◌, ◌||◌, Bool-discrete}
use mathlib.Core.List.{List, [], ◌∷◌, ◌++◌, map}
use native.Mathlib.Omega.{arith}
use katapult.Base.Tests.{leb, ◌==◌, if◌then◌else◌}
use katapult.Base.Lists.{is_nil, concat}

-- The code points of a text.
abbrev pub Text : Type 0
Text = List ℕ

-- A literal of the source.
unfoldable pub txt : String → Text
txt String.[] = []
txt (String.◌∷◌ c s) = code c ∷ txt s

unfoldable pub text_beq : Text → Text → Bool
text_beq [] [] = true
text_beq (x ∷ s) (y ∷ t) = x == y && text_beq s t
text_beq _ _ = false

pub text_beq_iff : (s t : Text) → (text_beq s t ≡ true) ↔ (s ≡ t)
unfolding text_beq
text_beq_iff (x ∷ s) (y ∷ t) = ground (arith, text_beq_iff s t)
text_beq_iff _ _ = ground arith

-- Shut in proofs, where a split on a test yields the equation or its negation.
unfoldable pub text_dec : Discrete Text
unfolding text_beq
text_dec s t =
    dite (Bool-discrete (text_beq s t) true) (λ same. yes ((text_beq_iff s t).0 same))
      (λ differ. no (λ p. differ ((text_beq_iff s t).1 p)))

-- `s == t`
abbrev pub text_eq : Text → Text → Bool
text_eq s t = ite (text_dec s t) true false

-- `t in texts`
abbrev pub contains : Text → List Text → Bool
contains t [] = false
contains t (s ∷ ss) = text_eq t s || contains t ss

-- `str.isspace` of one character, which is also the class `\s`.
unfoldable pub is_space : ℕ → Bool
is_space c =
    (leb 9 c && leb c 13)
    || (leb 28 c && leb c 32)
    || c == 0x85
    || c == 0xa0
    || c == 0x1680
    || (leb 0x2000 c && leb c 0x200a)
    || c == 0x2028
    || c == 0x2029
    || c == 0x202f
    || c == 0x205f
    || c == 0x3000

-- `s.lstrip(chars)` and `s.rstrip(chars)`, the characters given by a test.
unfoldable pub lstrip_by : (ℕ → Bool) → Text → Text
lstrip_by p [] = []
lstrip_by p (c ∷ s) = let rest = lstrip_by p s in if p c then rest else c ∷ s

unfoldable pub rstrip_by : (ℕ → Bool) → Text → Text
rstrip_by p [] = []
rstrip_by p (c ∷ s) = let rest = rstrip_by p s in if is_nil rest && p c then [] else c ∷ rest

-- `s.strip()`
unfoldable pub strip : Text → Text
unfolding is_space lstrip_by rstrip_by
strip s = rstrip_by is_space (lstrip_by is_space s)

-- `s.startswith(prefix)`
unfoldable pub starts_with : Text → Text → Bool
starts_with s [] = true
starts_with [] (p ∷ prefix) = false
starts_with (c ∷ s) (p ∷ prefix) = c == p && starts_with s prefix

-- `sep.join(parts)`
unfoldable pub join : Text → List Text → Text
join sep [] = []
join sep (p ∷ []) = p
join sep (p ∷ q ∷ parts) = p ++ (sep ++ join sep (q ∷ parts))

-- Puts a character in front of the first line.
abbrev pub prepend : ℕ → List Text → List Text
prepend c [] = (c ∷ []) ∷ []
prepend c (l ∷ ls) = (c ∷ l) ∷ ls

-- `s.split(c)` for one character: never empty.
unfoldable pub split_on : ℕ → Text → List Text
split_on d [] = [] ∷ []
split_on d (c ∷ s) = let rest = split_on d s in if c == d then [] ∷ rest else prepend c rest

-- The line boundaries of `str.splitlines`.
unfoldable pub is_break : ℕ → Bool
is_break c =
    (leb 10 c && leb c 13) || (leb 28 c && leb c 30) || c == 0x85 || c == 0x2028 || c == 0x2029

abbrev pub starts_lf : Text → Bool
starts_lf [] = false
starts_lf (c ∷ s) = c == 10

-- `s.splitlines(keepends=True)`: `\r\n` is one boundary.
unfoldable pub splitlines_keepends : Text → List Text
unfolding is_break
splitlines_keepends [] = []
splitlines_keepends (c ∷ s) =
    let rest = splitlines_keepends s in
    if is_break c && not (c == 13 && starts_lf s) then (c ∷ []) ∷ rest else prepend c rest

-- The part of a line before its boundary.
unfoldable pub before_break : Text → Text
unfolding is_break
before_break [] = []
before_break (c ∷ s) = let rest = before_break s in if is_break c then [] else c ∷ rest

-- `s.splitlines()`
unfoldable pub splitlines : Text → List Text
unfolding splitlines_keepends before_break
splitlines s = map before_break (splitlines_keepends s)

-- `str(n)`: the decimal digits. Each round removes one digit, so `n + 1` rounds are enough.
unfoldable pub decimal_onto : ℕ → ℕ → Text → Text
decimal_onto zero n acc = acc
decimal_onto (suc fuel) n acc =
    let rest = decimal_onto fuel (n / 10) ((48 + n % 10) ∷ acc) in
    if leb n 9 then (48 + n) ∷ acc else rest

unfoldable pub decimal : ℕ → Text
unfolding decimal_onto
decimal n = decimal_onto (suc n) n []

-- An f-string: its pieces in order.
abbrev pub fstring : List Text → Text
fstring = concat

pub concat-splitlines_keepends : (s : Text) → concat (splitlines_keepends s) ≡ s
unfolding splitlines_keepends is_break
concat-splitlines_keepends [] = refl
concat-splitlines_keepends (c ∷ s) = ground (arith, concat-splitlines_keepends s)

-- The test of two texts that are known to be the same, or known to differ.
pub text_eq_same : (s t : Text) → s ≡ t → text_eq s t ≡ true
text_eq_same s t h = ground arith

pub text_eq_other : (s t : Text) → ¬ (s ≡ t) → text_eq s t ≡ false
text_eq_other s t h = ground arith
