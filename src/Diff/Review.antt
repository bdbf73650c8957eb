-- ===== src/Diff/Review.antt =====
-- The loop of `file_level_kit_update` of diff_engine.py over the changed files: what is decided
-- about each, what is written, and the table of contents of what was merged by hand.
pub mod Frame
pub mod Forced
mod Tests
use katapult.Base.{
  Bool, true, false, not, ◌&&◌, ◌||◌, List, [], ◌∷◌, ◌++◌, Option, none, some, if◌then◌else◌,
}
use katapult.Base.Text.{Text, txt, fstring}
use katapult.Base.Dict.{Dict, lookup, insert, erase}
use katapult.Base.Unicode.{Unicode}
use katapult.Diff.Codec.{Bytes, Codec}
use katapult.Diff.Prompt.{Decision, accept, decline, modify, Review, prompt_kit_file}
use katapult.Diff.Prompt.{prompt_toc_regen, prompt_toc_error_continue}
use katapult.Diff.Merge.{EditorRun, Merged, returned, waiting, Opcodes, open_editor_for_file}
use katapult.Diff.StripToc.{TocFormat, markers, heading, absent, regenerate_toc}

pub data ChangeType : Type 0 where
  added removed modified : ChangeType

-- `"accepted"`, `"declined"` and `"modified"`.
pub data Action : Type 0 where
  accepted declined merged : Action

pub record Entry : Type 0 where
  pub path : Text
  pub action : Action

-- What the loop reads: the flags, both sides raw and without their tables of contents, and where
-- each path is installed. A path of `user_dir` is written with `/`.
pub record Update : Type 0 where
  pub interactive : Bool
  pub auto_approve : Bool
  pub force : Bool
  pub dry_run : Bool
  pub source_files : Dict Bytes
  pub user_files : Dict Bytes
  pub source_stripped : Dict Bytes
  pub user_stripped : Dict Bytes
  pub toc_formats : Dict TocFormat
  pub target_mapping : Dict Text
  pub user_dir : Text

-- What it changes: the files by path, the review with standard input, the runs of the editor that
-- are still to come, and the results. `stopped` is set by the `break`.
pub record Session : Type 0 where
  pub files : Dict Bytes
  pub review : Review
  pub runs : List EditorRun
  pub result_added : List Entry
  pub result_removed : List Entry
  pub result_modified : List Entry
  pub stopped : Bool

-- `d.get(k, b"")`, `toc_formats.get(k, "")`
abbrev pub bytes_or : Bytes → Option Bytes → Bytes
bytes_or b none = b
bytes_or b (some c) = c

abbrev pub format_or : Option TocFormat → TocFormat
format_or none = absent
format_or (some f) = f

abbrev dest_or : Text → Option Text → Text
dest_or d none = d
dest_or d (some t) = t

unfoldable pub dest_of : Update → Text → Text
unfolding lookup txt
dest_of k p = dest_or (fstring (k.user_dir ∷ txt "/" ∷ p ∷ [])) (lookup p k.target_mapping)

abbrev pub is_file : Text → Dict Bytes → Bool
is_file d files = elim (lookup d files) [ none ↦ false | some b ↦ true ]

-- The decision, the content as edited, and the session behind it.
abbrev pub Decided : Type 0
Decided = Action × Bytes × Session

abbrev pub add_entry : ChangeType → Entry → Session → Session
add_entry added e s = record s { result_added = s.result_added ++ e ∷ [] }
add_entry removed e s = record s { result_removed = s.result_removed ++ e ∷ [] }
add_entry modified e s = record s { result_modified = s.result_modified ++ e ∷ [] }

-- What is put at the destination, if the change is not declined.
abbrev pub write_data : Action → Bytes → Bytes → Option Bytes
write_data accepted new raw = some raw
write_data merged new raw = some new
write_data declined new raw = none

abbrev pub write_at : Text → Option Bytes → Dict Bytes → Dict Bytes
write_at d none files = files
write_at d (some b) files = insert d b files

-- The `# inst-apply-changes` part on the files, outside a dry run.
unfoldable pub apply_change : ChangeType → Action → Text → Bytes → Bytes → Dict Bytes → Dict Bytes
unfolding insert erase lookup
apply_change added a d new raw files = write_at d (write_data a new raw) files
apply_change modified a d new raw files = write_at d (write_data a new raw) files
apply_change removed accepted d new raw files = if is_file d files then erase d files else files
apply_change removed merged d new raw files = files
apply_change removed declined d new raw files = files

-- `wrote_file and not wrote_raw`, outside a dry run.
abbrev pub wrote_merged : ChangeType → Action → Bool
wrote_merged added merged = true
wrote_merged modified merged = true
wrote_merged _ _ = false

abbrev pub has_format : TocFormat → Bool
has_format absent = false
has_format _ = true

module _ (u : Unicode) (c : Codec) (opcodes : Opcodes) (k : Update) where
  -- What the editor comes to; `none` where a run of it is still to come.
  unfoldable pub edited : Bytes → Session → Merged → Option Decided
  edited new s (returned (some b) runs input) =
      some (merged, b, record s { runs = runs; review = record s.review { input = input } })
  edited new s (returned none runs input) =
      some (declined, new, record s { runs = runs; review = record s.review { input = input } })
  edited new s (waiting t) = none

  unfoldable pub decided : Bytes → Bytes → Session → Decision → Option Decided
  unfolding edited open_editor_for_file
  decided old new s accept = some (accepted, new, s)
  decided old new s decline = some (declined, new, s)
  decided old new s modify =
      edited new s (open_editor_for_file u c new opcodes old s.runs s.review.input)

  unfoldable pub decide : Bytes → Bytes → Session → Option Decided
  unfolding decided prompt_kit_file
  decide old new s =
      if k.force || k.auto_approve
      then some (accepted, new, s)
      else if not k.interactive
      then some (declined, new, s)
      else let (d, r) = prompt_kit_file s.review in decided old new (record s { review = r }) d

  -- `should_regen`, and the session behind the question.
  unfoldable pub should_regen : Session → Bool × Session
  unfolding prompt_toc_regen
  should_regen s =
      if k.auto_approve || k.force
      then (true, s)
      else if k.interactive
      then (let (answer, rest) = prompt_toc_regen u s.review.input in
          (answer, record s { review = record s.review { input = rest } }))
      else (false, s)

  -- A failed regeneration puts the user's content back, and the user may stop.
  unfoldable pub regen_result : Text → Text → Bytes → Session → Option Bytes → Session
  unfolding prompt_toc_error_continue insert lookup
  regen_result p d pre s (some b) = record s { files = insert d b s.files }
  regen_result p d pre s none =
      let restored = insert d (bytes_or pre (lookup p k.user_files)) s.files in
      let (go_on, rest) = prompt_toc_error_continue u s.review.input in
      if k.interactive
      then record s {
        files = restored;
        review = record s.review { input = rest };
        stopped = not go_on;
      }
      else record s { files = restored }

  unfoldable pub regen : Text → Text → TocFormat → Session → Session
  unfolding should_regen regen_result regenerate_toc lookup
  regen p d format s =
      let (answer, asked) = should_regen s in
      let pre = bytes_or [] (lookup d asked.files) in
      if answer then regen_result p d pre asked (regenerate_toc c u pre format) else asked

  -- The part of the body behind the decision.
  unfoldable pub carry_out : Text → ChangeType → Decided → Session
  unfolding apply_change regen dest_of lookup
  carry_out p t (a, new, s) =
      let d = dest_of k p in
      let raw = bytes_or [] (lookup p k.source_files) in
      let format = format_or (lookup p k.toc_formats) in
      let noted = add_entry t (record { path = p; action = a }) s in
      let written = record noted { files = apply_change t a d new raw noted.files } in
      if k.dry_run
      then noted
      else if wrote_merged t a && has_format format
      then regen p d format written
      else written

  abbrev pub carried : Text → ChangeType → Option Decided → Option Session
  unfolding carry_out
  carried p t none = none
  carried p t (some x) = some (carry_out p t x)

  -- One changed file.
  unfoldable pub review_file : Text → ChangeType → Session → Option Session
  unfolding decide carry_out lookup
  review_file p t s =
      carried p t (
        decide (bytes_or [] (lookup p k.user_stripped)) (bytes_or [] (lookup p k.source_stripped))
          s)

  -- The loop over the changed files; `none` where a run of the editor is still to come.
  unfoldable pub review_loop : List (Text × ChangeType) → Session → Option Session
  unfolding review_file
  review_loop [] s = some s
  review_loop ((p, t) ∷ changed) s = elim (review_file p t s) [
    | none ↦ none
    | some s' ↦ if s'.stopped then some s' else review_loop changed s'
  ]
