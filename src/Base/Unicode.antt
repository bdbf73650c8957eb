-- ===== src/Base/Unicode.antt =====
-- The tables of Unicode that `re` and `str` consult, which are no code of the program.
use katapult.Base.Tests.{leb, if◌then◌else◌}
use katapult.Base.Text.{Text}
use Prim.Native.Nat.{ℕ, ◌+◌, ◌-◌, ◌*◌}
use mathlib.Core.Bool.{Bool, true, false, ◌&&◌, ◌||◌}
use mathlib.Core.Option.{Option, none, some}
use mathlib.Core.List.{[], ◌∷◌, map}

pub record Unicode : Type 0 where
  -- the value of a decimal digit, the class `\d`
  pub digit : ℕ → Option ℕ
  -- the class `\w`
  pub is_word : ℕ → Bool
  -- `str.lower` and `str.upper`
  pub lower : Text → Text
  pub upper : Text → Text

abbrev pub is_some {ℓ} : {A : Type ℓ} → Option A → Bool
is_some none = false
is_some (some a) = true

module _ (u : Unicode) where
  abbrev pub is_digit : ℕ → Bool
  is_digit c = is_some (u.digit c)

  abbrev digit_value : Option ℕ → ℕ
  digit_value none = 0
  digit_value (some d) = d

  pub int_onto : ℕ → Text → ℕ
  int_onto n [] = n
  int_onto n (c ∷ s) = int_onto (10 * n + digit_value (u.digit c)) s

  -- `int(s)` of a text of digits.
  unfoldable pub int : Text → ℕ
  unfolding int_onto
  int s = int_onto 0 s

-- The tables of ASCII.
abbrev ascii_lower : ℕ → ℕ
ascii_lower c = if leb b'A' c && leb c b'Z' then c + 32 else c

abbrev ascii_upper : ℕ → ℕ
ascii_upper c = if leb b'a' c && leb c b'z' then c - 32 else c

abbrev ascii_digit : ℕ → Option ℕ
ascii_digit c = if leb b'0' c && leb c b'9' then some (c - 48) else none

abbrev ascii_word : ℕ → Bool
ascii_word c =
    is_some (ascii_digit c)
    || (leb b'a' c && leb c b'z')
    || (leb b'A' c && leb c b'Z')
    || (leb 95 c && leb c 95)

abbrev pub ascii : Unicode
ascii = record {
  digit = ascii_digit;
  is_word = ascii_word;
  lower = map ascii_lower;
  upper = map ascii_upper;
}
