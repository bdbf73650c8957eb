-- ===== src/Parsing.antt =====
-- Sections and fields of Markdown artifacts: the patterns of
-- cypilot/.core/skills/cypilot/scripts/cypilot/constants.py and the functions of
-- cypilot/.core/skills/cypilot/scripts/cypilot/utils/parsing.py.
pub mod Sections
mod Tests
use katapult.Base.{
  ℕ, zero, suc, ◌+◌, Bool, true, false, not, ◌&&◌, ◌||◌, List, [], ◌∷◌, ◌++◌, Option, none, some,
  ◌==◌, leb, ltb, if◌then◌else◌,
}
use katapult.Base.Lists.{length, is_nil}
use katapult.Base.Text.{
  Text, txt, strip, lstrip_by, is_space, starts_with, splitlines, text_eq, text_dec, contains,
}
use katapult.Base.Dict.{Dict, lookup, insert, keys}
use katapult.Base.Unicode.{Unicode, is_some}
use katapult.Regex.{
  Regex, chr, lit, seq, group, rep, eos, plus, star, plus_lazy, between, captured, char_in,
}
use katapult.Regex.{Match, match_start, finditer, fullmatch}

abbrev is_upper : ℕ → Bool
is_upper c = leb b'A' c && leb c b'Z'

abbrev is_upper_or_digit : ℕ → Bool
is_upper_or_digit c = is_upper c || (leb b'0' c && leb c b'9')

-- `.` of a pattern
abbrev not_newline : ℕ → Bool
not_newline c = not (c == 10)

-- `SECTION_RE`: `^###\s+Section\s+([A-Z0-9]+):\s+(.+?)\s*$`
unfoldable pub section_re : Regex
unfolding txt is_space
section_re = seq (lit (txt "###")) (
    seq (plus is_space) (
      seq (lit (txt "Section")) (
        seq (plus is_space) (
          seq (group 1 (plus is_upper_or_digit)) (
            seq (lit (txt ":")) (
              seq (plus is_space)
                (seq (group 2 (plus_lazy not_newline)) (seq (star is_space) eos))))))))

-- `HEADING_ID_RE`: `^#{1,6}\s+([A-Z])\.\s+.*$`
unfoldable pub heading_id_re : Regex
unfolding txt is_space
heading_id_re = seq (between 1 6 (λ c. c == b'#')) (
    seq (plus is_space) (
      seq (group 1 (chr is_upper))
        (seq (lit (txt ".")) (seq (plus is_space) (seq (star not_newline) eos)))))

-- `FIELD_HEADER_RE`: `^\s*[-*]?\s*\*\*([^*]+)\*\*:\s*(.*)$`
unfoldable pub field_header_re : Regex
unfolding txt is_space
field_header_re = seq (star is_space) (
    seq (between 0 1 (char_in (txt "-*"))) (
      seq (star is_space) (
        seq (lit (txt "**")) (
          seq (group 1 (plus (λ c. not (c == b'*'))))
            (seq (lit (txt "**:")) (seq (star is_space) (seq (group 2 (star not_newline)) eos)))))))

abbrev section_into : Option Match → Dict Text → Dict Text
section_into none d = d
section_into (some m) d = insert (captured 1 m.groups) (captured 2 m.groups) d

-- `parse_required_sections`, on the lines of the file's text.
unfoldable pub required_sections : List Text → Dict Text → Dict Text
unfolding match_start section_re insert
required_sections [] d = d
required_sections (l ∷ ls) d = required_sections ls (section_into (match_start section_re l) d)

unfoldable pub parse_required_sections : Text → Dict Text
unfolding required_sections splitlines
parse_required_sections text = required_sections (splitlines text) []

abbrev letter_of : Option Match → List Text
letter_of none = []
letter_of (some m) = captured 1 m.groups ∷ []

unfoldable pub present_ids : List Text → List Text
unfolding match_start heading_id_re
present_ids [] = []
present_ids (l ∷ ls) = letter_of (match_start heading_id_re l) ++ present_ids ls

unfoldable pub find_present_section_ids : Text → List Text
unfolding present_ids splitlines
find_present_section_ids text = present_ids (splitlines text)

-- Whether the value of a field header in a list looks like a field's: `len(value) > 40` refuses.
unfoldable pub is_field_value : Text → Bool
unfolding starts_with txt text_dec
is_field_value value =
    is_nil value
    || text_eq value (txt "None")
    || starts_with value (txt "`")
    || starts_with value (txt "[")
    || not (ltb 40 (length value))

abbrev ends_field : Text → Option Match → Bool
unfolding lstrip_by is_space starts_with txt is_field_value strip
ends_field line none = false
ends_field line (some m) =
    let stripped = lstrip_by is_space line in
    not (starts_with stripped (txt "- **") || starts_with stripped (txt "* **"))
    || is_field_value (strip (captured 2 m.groups))

-- `_is_field_header_terminator`
unfoldable pub is_field_header_terminator : Text → Bool
unfolding match_start field_header_re lstrip_by is_space starts_with txt is_field_value strip
is_field_header_terminator line = ends_field line (match_start field_header_re line)

-- The lines up to the first that ends the field.
unfoldable pub field_tail : List Text → List Text
unfolding is_field_header_terminator
field_tail [] = []
field_tail (l ∷ ls) =
    let rest = field_tail ls in if is_field_header_terminator l then [] else l ∷ rest

pub record FieldBlock : Type 0 where
  pub index : ℕ
  pub value : Text
  pub tail : List Text

-- The value of the field, if the line is the header of the field of that name.
abbrev field_value : Text → Option Match → Option Text
unfolding strip text_dec
field_value name none = none
field_value name (some m) =
    if text_eq (strip (captured 1 m.groups)) name then some (captured 2 m.groups) else none

unfoldable pub field_from : ℕ → List Text → Text → Option FieldBlock
unfolding match_start field_header_re strip text_dec field_tail
field_from i [] name = none
field_from i (l ∷ ls) name = elim (field_value name (match_start field_header_re l)) [
  | some v ↦ some (record { index = i; value = v; tail = field_tail ls })
  | none ↦ field_from (i + 1) ls name
]

unfoldable pub field_block : List Text → Text → Option FieldBlock
unfolding field_from
field_block lines name = field_from 0 lines name

-- `^\s*[-*]\s+\S+`
unfoldable pub list_item_re : Regex
unfolding txt is_space
list_item_re =
    seq (star is_space)
      (seq (chr (char_in (txt "-*"))) (seq (plus is_space) (plus (λ c. not (is_space c)))))

unfoldable pub has_list_item : List Text → Bool
unfolding list_item_re match_start
has_list_item [] = false
has_list_item (l ∷ ls) = is_some (match_start list_item_re l) || has_list_item ls

-- "`([^`]+)`"
unfoldable pub backticked_re : Regex
unfolding txt
backticked_re = seq (lit (txt "`")) (seq (group 1 (plus (λ c. not (c == b'`')))) (lit (txt "`")))

unfoldable pub matching_tokens : Regex → List Match → List Text
unfolding fullmatch strip
matching_tokens pattern [] = []
matching_tokens pattern (m ∷ ms) =
    let token = strip (captured 1 m.groups) in
    let rest = matching_tokens pattern ms in if fullmatch pattern token then token ∷ rest else rest

unfoldable pub extract_backticked_ids : Text → Regex → List Text
unfolding matching_tokens backticked_re finditer
extract_backticked_ids line pattern = matching_tokens pattern (finditer backticked_re line)
