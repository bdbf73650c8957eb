-- ===== src/Diff/Codec.antt =====
-- Files as bytes, and UTF-8, which the program takes from Python.
use katapult.Base.{ℕ, ◌≡◌, Option, some, List}
use katapult.Base.Text.{Text}

-- The bytes of a file.
abbrev pub Bytes : Type 0
Bytes = List ℕ

-- `b.decode("utf-8")`, `none` where it raises, and `s.encode("utf-8")`.
pub record Codec : Type 0 where
  pub decode : Bytes → Option Text
  pub encode : Text → Bytes

-- Decoding gives back a text that was encoded.
abbrev pub IsLawful : Codec → Type 0
IsLawful c = (t : Text) → c.decode (c.encode t) ≡ some t

-- For ASCII the bytes are the code points.
abbrev pub plain : Codec
plain = record { decode = some; encode = λ t. t }
