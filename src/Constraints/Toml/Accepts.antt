-- ===== src/Constraints/Toml/Accepts.antt =====
-- Which tables the parser of heading constraints accepts.
use katapult.Base.{Bool, true, false, ◌&&◌, ◌||◌, Option, none, some, leb}
use katapult.Base.Text.{Text, txt}
use katapult.Constraints.Toml.{
  Value, text, integer, boolean, Entries, Parsed, ok, err, get, check_pattern,
}

abbrev pub is_ok {ℓ} : {A : Type ℓ} → Parsed A → Bool
is_ok (ok a) = true
is_ok (err e) = false

-- A key that is left out, or has a text.
unfoldable pub is_text : Option Value → Bool
is_text none = true
is_text (some (text s)) = true
is_text (some v) = false

unfoldable pub is_boolean : Option Value → Bool
is_boolean none = true
is_boolean (some (boolean b)) = true
is_boolean (some v) = false

-- An integer from 1 to 6, as the schema of kit constraints has it.
unfoldable pub is_integer_level : Option Value → Bool
is_integer_level (some (integer n)) = leb 1 n && leb n 6
is_integer_level o = false

unfoldable pub is_true_level : Option Value → Bool
is_true_level (some (boolean b)) = b
is_true_level o = false

-- What the parser takes for a level.
unfoldable is_level : Option Value → Bool
unfolding is_integer_level is_true_level
is_level o = is_integer_level o || is_true_level o

-- A pattern that is left out, or a text that is blank or compiles.
unfoldable pub is_pattern : (Text → Option Text) → Option Value → Bool
unfolding check_pattern
is_pattern regex_error none = true
is_pattern regex_error (some (text s)) = is_ok (check_pattern regex_error (some s))
is_pattern regex_error (some v) = false

-- Every field is what it is to be, with the level by the given test.
unfoldable pub is_heading_fields :
    (Option Value → Bool)
    → (Text → Option Text)
    → Option Value
    → Option Value
    → Option Value
    → Option Value
    → Option Value
    → Option Value
    → Option Value
    → Option Value
    → Option Value
    → Bool
unfolding is_text is_boolean is_pattern
is_heading_fields level regex_error vid vprev vnext vlevel vpattern vdesc vrequired vmultiple
      vnumbered =
    is_text vid
    && (is_text vprev
        && (is_text vnext
            && (level vlevel
                && (is_text vpattern
                    && (is_text vdesc
                        && (is_boolean vrequired
                            && (is_boolean vmultiple
                                && (is_boolean vnumbered && is_pattern regex_error vpattern))))))))

unfoldable pub is_heading_table : (Option Value → Bool) → (Text → Option Text) → Entries → Bool
unfolding is_heading_fields get txt
is_heading_table level regex_error obj =
    is_heading_fields level regex_error (get (txt "id") obj) (get (txt "prev") obj)
      (get (txt "next") obj) (get (txt "level") obj) (get (txt "pattern") obj)
      (get (txt "description") obj) (get (txt "required") obj) (get (txt "multiple") obj)
      (get (txt "numbered") obj)
