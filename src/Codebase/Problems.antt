-- ===== src/Codebase/Problems.antt =====
-- The errors that the scanner of codebase.py reports, with their messages.
use katapult.Base.{ℕ, List, [], ◌∷◌, some}
use katapult.Base.Text.{Text, txt, decimal, fstring}
use katapult.ErrorCodes.{ErrorCode, file_read_error, marker_dup_begin, marker_end_no_begin}
use katapult.ErrorCodes.{marker_empty_block, marker_begin_no_end}
use katapult.Issue.{FilePath, path_name, str, Issue, error}

-- A block that was begun: line, id, phase, inst.
pub record OpenBlock : Type 0 where
  pub line : ℕ
  pub id : Text
  pub phase : ℕ
  pub inst : Text

unfoldable pub read_error : FilePath → Text → Issue
unfolding error txt
read_error path e =
    error (txt "file") (fstring (txt "Failed to read `" ∷ path ∷ txt "`: " ∷ e ∷ [])) path 1
      (some file_read_error) []

-- The errors about one block name its id and its instruction.
marker_error : FilePath → Text → Text → ℕ → ErrorCode → List Text → Issue
unfolding error txt
marker_error path id inst line code message =
    error (txt "marker") (fstring message) path line (some code)
      ((txt "id", some (str id)) ∷ (txt "inst", some (str inst)) ∷ [])

unfoldable pub dup_begin_error : FilePath → Text → Text → ℕ → Issue
unfolding marker_error path_name txt decimal
dup_begin_error path id inst line = marker_error path id inst line marker_dup_begin (
    txt "Duplicate @cpt-begin for `"
    ∷ id
    ∷ txt "` inst `"
    ∷ inst
    ∷ txt "` at line "
    ∷ decimal line
    ∷ txt " in `"
    ∷ path_name path
    ∷ txt "` — previous @cpt-begin not closed"
    ∷ [])

unfoldable pub end_no_begin_error : FilePath → Text → Text → ℕ → Issue
unfolding marker_error path_name txt decimal
end_no_begin_error path id inst line = marker_error path id inst line marker_end_no_begin (
    txt "@cpt-end for `"
    ∷ id
    ∷ txt "` inst `"
    ∷ inst
    ∷ txt "` at line "
    ∷ decimal line
    ∷ txt " in `"
    ∷ path_name path
    ∷ txt "` has no matching @cpt-begin"
    ∷ [])

unfoldable pub empty_block_error : FilePath → OpenBlock → ℕ → Issue
unfolding marker_error path_name txt decimal
empty_block_error path o line = marker_error path o.id o.inst o.line marker_empty_block (
    txt "Empty block for `"
    ∷ o.id
    ∷ txt "` inst `"
    ∷ o.inst
    ∷ txt "` (lines "
    ∷ decimal o.line
    ∷ txt "–"
    ∷ decimal line
    ∷ txt ") in `"
    ∷ path_name path
    ∷ txt "` — no code between markers"
    ∷ [])

unfoldable pub begin_no_end_error : FilePath → OpenBlock → Issue
unfolding marker_error path_name txt decimal
begin_no_end_error path o = marker_error path o.id o.inst o.line marker_begin_no_end (
    txt "@cpt-begin for `"
    ∷ o.id
    ∷ txt "` inst `"
    ∷ o.inst
    ∷ txt "` at line "
    ∷ decimal o.line
    ∷ txt " in `"
    ∷ path_name path
    ∷ txt "` was never closed with @cpt-end"
    ∷ [])
