-- ===== src/Diff/Display.antt =====
-- What diff_engine.py writes to standard error: `show_file_diff` and `_show_kit_update_summary`.
use katapult.Base.{◌||◌, List, [], ◌∷◌, ◌++◌, Option, none, some, ◌==◌, if◌then◌else◌, map}
use katapult.Base.Lists.{length, is_nil, concat}
use katapult.Base.Text.{
  Text, txt, rstrip_by, starts_with, join, decimal, fstring, splitlines_keepends,
}
use katapult.Diff.Codec.{Bytes, Codec}
use katapult.Diff.Classify.{DiffReport}

-- `\033[…m`, and the same around a text.
abbrev colour : Text → Text → Text
unfolding txt
colour code t = fstring ((27 ∷ txt "[") ∷ code ∷ txt "m" ∷ t ∷ (27 ∷ txt "[0m") ∷ [])

abbrev green : Text → Text
unfolding txt colour
green = colour (txt "32")

abbrev red : Text → Text
unfolding txt colour
red = colour (txt "31")

abbrev yellow : Text → Text
unfolding txt colour
yellow = colour (txt "33")

-- What one line of the unified diff prints, if anything.
unfoldable pub diff_line_output : Text → Text → List Text
unfolding rstrip_by starts_with txt
diff_line_output prefix line =
    let s = rstrip_by (λ c. c == 10) line in
    let out = λ (t : Text). fstring (prefix ∷ t ∷ txt "\n" ∷ []) ∷ [] in
    if starts_with s (txt "+++") || starts_with s (txt "---")
    then out s
    else if starts_with s (txt "+")
    then out (green s)
    else if starts_with s (txt "-")
    then out (red s)
    else if starts_with s (txt "@@")
    then out (colour (txt "36") s)
    else []

-- `difflib.unified_diff` on the lines of the two sides, which is Python's.
abbrev pub UnifiedDiff : Type 0
UnifiedDiff = Text → List Text → List Text → List Text

abbrev diff_output : UnifiedDiff → Text → Text → Option Text → Option Text → Text
unfolding diff_line_output splitlines_keepends txt
diff_output diff path prefix (some old) (some new) = concat (
    map (λ l. concat (diff_line_output prefix l))
      (diff path (splitlines_keepends old) (splitlines_keepends new)))
diff_output diff path prefix none new =
    fstring (prefix ∷ txt "(binary file — diff not shown)\n" ∷ [])
diff_output diff path prefix (some old) none =
    fstring (prefix ∷ txt "(binary file — diff not shown)\n" ∷ [])

unfoldable pub show_file_diff : Codec → UnifiedDiff → Text → Bytes → Bytes → Text → Text
unfolding diff_line_output splitlines_keepends txt
show_file_diff c diff path old new prefix =
    diff_output diff path prefix (c.decode old) (c.decode new)

abbrev count_of : (Text → Text) → List Text → Text → List Text
unfolding txt decimal
count_of paint paths label =
    if is_nil paths
    then []
    else paint (fstring (decimal (length paths) ∷ txt " " ∷ label ∷ [])) ∷ []

abbrev path_lines : Text → (Text → Text) → Text → Text → List Text → Text
unfolding txt
path_lines prefix paint mark note paths = concat (
    map
      (λ p.
        fstring
          (prefix ∷ txt "  " ∷ paint (fstring (mark ∷ txt " " ∷ p ∷ [])) ∷ note ∷ txt "\n" ∷ []))
      paths)

unfoldable pub show_kit_update_summary : Text → DiffReport → Text
unfolding txt decimal join green red yellow
show_kit_update_summary prefix r =
    let counts =
      count_of green r.added (txt "added")
      ++ (count_of red r.removed (txt "removed")
          ++ (count_of yellow r.modified (txt "modified")
              ++ fstring (decimal (length r.unchanged) ∷ txt " unchanged" ∷ []) ∷ [])) in
    fstring (
      prefix
      ∷ txt "Kit files: "
      ∷ join (txt ", ") counts
      ∷ txt "\n"
      ∷ path_lines prefix green (txt "+") (txt "  (new)") r.added
      ∷ path_lines prefix red (txt "-") (txt "  (deleted upstream)") r.removed
      ∷ path_lines prefix yellow (txt "~") [] r.modified
      ∷ [])
