-- ===== src/Diff/Merge.antt =====
-- Merging by hand: the conflict markers and the editor loop of diff_engine.py. The opcodes of
-- `difflib.SequenceMatcher` and the runs of the editor are arguments.
pub mod Sides
pub mod Joined
pub mod Resolved
use katapult.Base.{
  ℕ, Bool, true, false, ◌||◌, List, [], ◌∷◌, ◌++◌, Option, none, some, if◌then◌else◌,
}
use katapult.Base.Lists.{is_nil, slice, concat}
use katapult.Base.Text.{Text, txt, strip, starts_with, splitlines, splitlines_keepends, text_dec}
use katapult.Base.Unicode.{Unicode}
use katapult.Diff.Codec.{Bytes, Codec}
use katapult.Diff.Prompt.{Unresolved, retry, take_upstream, keep_yours, prompt_unresolved}

-- The markers, each with the newline that the program puts behind it.
unfoldable pub marker_ours : Text
unfolding txt
marker_ours = txt "<<<<<<< installed (yours)\n"

unfoldable pub marker_sep : Text
unfolding txt
marker_sep = txt "=======\n"

unfoldable pub marker_theirs : Text
unfolding txt
marker_theirs = txt ">>>>>>> upstream (source)\n"

-- `get_editor`: $VISUAL, $EDITOR or vi; an empty variable counts as absent.
abbrev set_or : Option Text → Text → Text
set_or none e = e
set_or (some []) e = e
set_or (some (c ∷ s)) e = c ∷ s

unfoldable pub get_editor : Option Text → Option Text → Text
unfolding txt
get_editor visual editor = set_or visual (set_or editor (txt "vi"))

unfoldable pub is_marker_line : Text → Bool
unfolding starts_with txt
is_marker_line l =
    starts_with l (txt "<<<<<<<") || starts_with l (txt "=======") || starts_with l (txt ">>>>>>>")

unfoldable pub any_marker : List Text → Bool
unfolding is_marker_line
any_marker [] = false
any_marker (l ∷ ls) = is_marker_line l || any_marker ls

unfoldable pub has_conflict_markers : Text → Bool
unfolding any_marker splitlines
has_conflict_markers text = any_marker (splitlines text)

pub data Tag : Type 0 where
  equal replace delete insert : Tag

-- `(tag, i1, i2, j1, j2)`
pub record Opcode : Type 0 where
  pub tag : Tag
  pub i1 : ℕ
  pub i2 : ℕ
  pub j1 : ℕ
  pub j2 : ℕ

-- The lines that one opcode adds to `parts`, from its two slices.
unfoldable pub hunk_parts : Tag → List Text → List Text → List Text
unfolding marker_ours marker_sep marker_theirs
hunk_parts equal old new = old
hunk_parts replace old new = marker_ours ∷ (old ++ (marker_sep ∷ (new ++ (marker_theirs ∷ []))))
hunk_parts delete old new = marker_ours ∷ (old ++ (marker_sep ∷ marker_theirs ∷ []))
hunk_parts insert old new = marker_ours ∷ marker_sep ∷ (new ++ (marker_theirs ∷ []))

unfoldable pub conflict_parts : List Text → List Text → List Opcode → List Text
unfolding hunk_parts
conflict_parts old new [] = []
conflict_parts old new (o ∷ os) =
    hunk_parts o.tag (slice o.i1 o.i2 old) (slice o.j1 o.j2 new) ++ conflict_parts old new os

-- `SequenceMatcher(None, a, b, autojunk=False).get_opcodes()`, which is Python's.
abbrev pub Opcodes : Type 0
Opcodes = List Text → List Text → List Opcode

unfoldable pub build_conflict_content : Opcodes → Text → Text → Text
unfolding conflict_parts splitlines_keepends
build_conflict_content opcodes old_text new_text =
    let old = splitlines_keepends old_text in
    let new = splitlines_keepends new_text in concat (conflict_parts old new (opcodes old new))

-- A run of the editor on a file: it fails, or the file holds a text behind it.
pub data EditorRun : Type 0 where
  failed : EditorRun
  saved : Text → EditorRun

-- What the loop comes to: it returns, with the runs and the input that are left, or waits for a run
-- of the editor that is not in the list.
pub data Merged : Type 0 where
  returned : Option Bytes → List EditorRun → List Text → Merged
  waiting : Text → Merged

module _ (u : Unicode) (c : Codec) (new_content : Bytes) where
  -- The loop, on the text in the file, the runs of the editor and standard input.
  unfoldable pub edit_loop : Text → List EditorRun → List Text → Merged
  unfolding has_conflict_markers prompt_unresolved strip
  edit_loop conflict [] input = waiting conflict
  edit_loop conflict (failed ∷ runs) input = returned none runs input
  edit_loop conflict (saved edited ∷ runs) input =
      let (decision, rest) = prompt_unresolved u input in
      let again = edit_loop edited runs rest in
      if is_nil (strip edited)
      then returned none runs input
      else if has_conflict_markers edited
      then elim decision [
        | retry ↦ again
        | take_upstream ↦ returned (some new_content) runs rest
        | keep_yours ↦ returned none runs rest
      ]
      else returned (some (c.encode edited)) runs input

  -- From the two decoded sides; nothing can be edited unless both decode.
  unfoldable pub open_decoded :
      Opcodes → Option Text → Option Text → List EditorRun → List Text → Merged
  unfolding edit_loop build_conflict_content
  open_decoded opcodes (some old) (some new) runs input =
      edit_loop (build_conflict_content opcodes old new) runs input
  open_decoded opcodes none new runs input = returned none runs input
  open_decoded opcodes (some old) none runs input = returned none runs input

  -- `_open_editor_for_file`
  unfoldable pub open_editor_for_file : Opcodes → Bytes → List EditorRun → List Text → Merged
  unfolding open_decoded
  open_editor_for_file opcodes old_content runs input =
      open_decoded opcodes (c.decode old_content) (c.decode new_content) runs input
