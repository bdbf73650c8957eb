-- ===== src/Diff/Tests.antt =====
-- Runs of the update engine, and its laws at those runs.
use katapult.Base.{◌≡◌, ◌↔◌, refl, true, false, List, [], ◌∷◌, some, arith}
use katapult.Base.Lists.{All, concat}
use katapult.Base.Text.{Text, txt, text_dec, contains, strip, splitlines_keepends}
use katapult.Base.Dict.{Dict, lookup}
use katapult.Base.Unicode.{ascii}
use katapult.Diff.Codec.{Bytes, plain}
use katapult.Diff.Classify.{has_changes, classify_kit_files}
use katapult.Diff.Classify.Exact.{
  is_modified, paths_of, same_class, class_of, classify_kit_files-class, classify_kit_files-same,
}
use katapult.Diff.Merge.{
  equal, replace, Opcode, Opcodes, build_conflict_content, EditorRun, saved, returned,
  open_editor_for_file, marker_ours, marker_sep, marker_theirs,
}
use katapult.Diff.Merge.Sides.{side, both, IsContent, Covers}
use katapult.Diff.Merge.Joined.{ends_in_newline, build_conflict_content-sides}
use katapult.Diff.Merge.Resolved.{IsResolved, open_editor_for_file-IsResolved}
use katapult.Diff.Prompt.{accept}
use katapult.Diff.Prompt.Bulk.{review, repeat, begin, review-bulk}

abbrev first_line : Text
unfolding txt
first_line = txt "same\n"

abbrev yours_line : Text
unfolding txt
yours_line = txt "yours\n"

abbrev theirs_line : Text
unfolding txt
theirs_line = txt "theirs\n"

abbrev source_files : Dict Bytes
unfolding txt
source_files = (txt "a.md", theirs_line) ∷ (txt "b.md", first_line) ∷ (txt "c.md", []) ∷ []

abbrev user_files : Dict Bytes
unfolding txt
user_files = (txt "a.md", yours_line) ∷ (txt "b.md", first_line) ∷ (txt "d.md", []) ∷ []

abbrev a_md : Text
unfolding txt
a_md = txt "a.md"

classify_kit_files_run : classify_kit_files source_files user_files ≡ record {
  added = txt "c.md" ∷ [];
  removed = txt "d.md" ∷ [];
  modified = txt "a.md" ∷ [];
  unchanged = txt "b.md" ∷ [];
}
unfolding classify_kit_files text_dec source_files user_files txt
classify_kit_files_run = refl

classify_kit_files-class_example :
    contains a_md (paths_of (classify_kit_files source_files user_files) is_modified)
    ≡ same_class is_modified (class_of (lookup a_md source_files) (lookup a_md user_files))
classify_kit_files-class_example =
    classify_kit_files-class source_files user_files a_md is_modified refl

classify_kit_files-same_example :
    (has_changes (classify_kit_files source_files user_files) ≡ false)
    ↔ ((k : Text) → lookup k source_files ≡ lookup k user_files)
classify_kit_files-same_example = classify_kit_files-same source_files user_files

-- Two versions of a file, with the opcodes for them.
abbrev old_lines : List Text
old_lines = first_line ∷ yours_line ∷ []

abbrev new_lines : List Text
new_lines = first_line ∷ theirs_line ∷ []

abbrev opcodes : List Opcode
opcodes =
    record { tag = equal; i1 = 0; i2 = 1; j1 = 0; j2 = 1 }
    ∷ record { tag = replace; i1 = 1; i2 = 2; j1 = 1; j2 = 2 }
    ∷ []

old_lines-IsContent : All IsContent old_lines
unfolding first_line yours_line txt marker_ours marker_sep marker_theirs
old_lines-IsContent = (
  (λ e. ground arith, λ e. ground arith, λ e. ground arith),
  ((λ e. ground arith, λ e. ground arith, λ e. ground arith), tt),
)

new_lines-IsContent : All IsContent new_lines
unfolding first_line theirs_line txt marker_ours marker_sep marker_theirs
new_lines-IsContent = (
  (λ e. ground arith, λ e. ground arith, λ e. ground arith),
  ((λ e. ground arith, λ e. ground arith, λ e. ground arith), tt),
)

opcodes-Covers : Covers old_lines new_lines 0 0 opcodes
opcodes-Covers = (
  refl,
  refl,
  omega arith,
  omega arith,
  refl,
  (refl, refl, omega arith, omega arith, tt, (omega arith, omega arith)),
)

-- The same opcodes for all versions.
abbrev differ : Opcodes
differ old new = opcodes

abbrev old_text : Text
unfolding txt
old_text = txt "same\nyours\n"

abbrev new_text : Text
unfolding txt
new_text = txt "same\ntheirs\n"

old_text-lines : splitlines_keepends old_text ≡ old_lines
unfolding splitlines_keepends old_text first_line yours_line txt
old_text-lines = refl

new_text-lines : splitlines_keepends new_text ≡ new_lines
unfolding splitlines_keepends new_text first_line theirs_line txt
new_text-lines = refl

old_lines-newlined : All (λ l. ends_in_newline l ≡ true) old_lines
unfolding first_line yours_line txt
old_lines-newlined = (refl, (refl, tt))

new_lines-newlined : All (λ l. ends_in_newline l ≡ true) new_lines
unfolding first_line theirs_line txt
new_lines-newlined = (refl, (refl, tt))

build_conflict_content-sides_example :
    let lines = splitlines_keepends (build_conflict_content differ old_text new_text) in
    (concat (side true both lines) ≡ old_text) × (concat (side false both lines) ≡ new_text)
build_conflict_content-sides_example =
    build_conflict_content-sides differ old_text new_text (rw old_text-lines old_lines-newlined)
      (rw new_text-lines new_lines-newlined) (rw old_text-lines old_lines-IsContent)
      (rw new_text-lines new_lines-IsContent) (rw (old_text-lines, new_text-lines) opcodes-Covers)

-- Without a newline at the end, the markers behind the last lines of both versions are swallowed.
abbrev replaced : Opcodes
replaced old new = record { tag = replace; i1 = 0; i2 = 1; j1 = 0; j2 = 1 } ∷ []

build_conflict_content_result :
    build_conflict_content replaced (txt "a") (txt "b")
    ≡ txt "<<<<<<< installed (yours)\na=======\nb>>>>>>> upstream (source)\n"
unfolding build_conflict_content txt
build_conflict_content_result = refl

abbrev merged : Text
unfolding txt
merged = txt "same\nyours\ntheirs\n"

-- The editor is left with the markers in place, run again, and then they are gone.
abbrev runs : List EditorRun
unfolding build_conflict_content
runs = saved (build_conflict_content differ old_text new_text) ∷ saved merged ∷ []

abbrev answers : List Text
unfolding txt
answers = txt "r" ∷ []

editor_returns :
    open_editor_for_file ascii plain new_text differ old_text runs answers
    ≡ returned (some merged) [] []
unfolding open_editor_for_file text_dec runs answers old_text new_text merged txt
editor_returns = refl

open_editor_for_file-IsResolved_example : IsResolved ascii plain new_text merged
open_editor_for_file-IsResolved_example =
    open_editor_for_file-IsResolved ascii plain new_text differ old_text runs answers merged [] []
      editor_returns

abbrev typed : Text
unfolding txt
typed = txt " A "

typed-A : strip typed ≡ txt "A"
unfolding typed strip txt
typed-A = refl

review-bulk_example :
    review 3 (begin (typed ∷ answers))
    ≡ (repeat 3 accept, record (begin answers) { accept_all = true; decline_all = false })
review-bulk_example = review-bulk 2 typed answers true typed-A
