-- ===== src/Diff/Update.antt =====
-- `file_level_kit_update` of diff_engine.py from the enumerated files on: the tables of contents are
-- taken out for the display, the two sides are classified, the changes reviewed and summed up. What
-- it prints is left out.
pub mod Current
mod Tests
use katapult.Base.{
  ℕ, Bool, true, false, not, ◌&&◌, List, [], ◌∷◌, ◌++◌, Option, none, some, ltb, if◌then◌else◌,
}
use katapult.Base.Lists.{length}
use katapult.Base.Sorted.{text_lt}
use katapult.Base.Text.{Text, text_eq, text_dec, contains}
use katapult.Base.Dict.{Dict, lookup, insert, keys}
use katapult.Base.Unicode.{Unicode}
use katapult.Diff.Codec.{Bytes, Codec}
use katapult.Diff.Classify.{DiffReport, has_changes, classify_kit_files}
use katapult.Diff.Merge.{EditorRun, Opcodes}
use katapult.Diff.StripToc.{TocFormat, strip_toc_for_diff}
use katapult.Diff.Review.{
  ChangeType, added, removed, modified, Action, accepted, declined, merged, Entry, Update, Session,
  has_format, review_loop,
}

-- The flags of the call, and the directory of the user's copy.
pub record Options : Type 0 where
  pub interactive : Bool
  pub auto_approve : Bool
  pub force : Bool
  pub dry_run : Bool
  pub user_dir : Text

pub data Status : Type 0 where
  current updated : Status

-- The dict that is returned; `unchanged` and `unchanged_count` are the same number.
pub record Summary : Type 0 where
  pub status : Status
  pub added_entries : List Entry
  pub removed_entries : List Entry
  pub modified_entries : List Entry
  pub unchanged : ℕ
  pub accepted_paths : List Text
  pub declined_paths : List Text

module _ (c : Codec) where
  unfoldable pub stripped_files : Dict Bytes → Dict Bytes → Dict Bytes
  unfolding strip_toc_for_diff insert
  stripped_files [] d = d
  stripped_files ((p, b) ∷ files) d = stripped_files files (insert p (strip_toc_for_diff c b).0 d)

  -- The formats that the loop over one side adds; the second loop keeps those that are there.
  unfoldable pub source_formats : Dict Bytes → Dict TocFormat → Dict TocFormat
  unfolding strip_toc_for_diff insert
  source_formats [] d = d
  source_formats ((p, b) ∷ files) d =
      let format = (strip_toc_for_diff c b).1 in
      source_formats files (if has_format format then insert p format d else d)

  unfoldable pub user_formats : Dict Bytes → Dict TocFormat → Dict TocFormat
  unfolding strip_toc_for_diff insert keys text_dec
  user_formats [] d = d
  user_formats ((p, b) ∷ files) d =
      let format = (strip_toc_for_diff c b).1 in
      user_formats files
        (if has_format format && not (contains p (keys d)) then insert p format d else d)

-- The order of the words `added`, `modified` and `removed`.
abbrev rank : ChangeType → ℕ
rank added = 0
rank modified = 1
rank removed = 2

unfoldable pub change_lt : Text × ChangeType → Text × ChangeType → Bool
unfolding text_dec text_lt
change_lt (p, t) (q, w) = if text_eq p q then ltb (rank t) (rank w) else text_lt p q

unfoldable pub insert_change :
    Text × ChangeType → List (Text × ChangeType) → List (Text × ChangeType)
unfolding change_lt
insert_change x [] = x ∷ []
insert_change x (y ∷ ys) =
    let rest = insert_change x ys in if change_lt y x then y ∷ rest else x ∷ y ∷ ys

-- The paths with their type, put in order.
unfoldable pub insert_changes :
    ChangeType → List Text → List (Text × ChangeType) → List (Text × ChangeType)
unfolding insert_change
insert_changes t [] changes = changes
insert_changes t (p ∷ ps) changes = insert_change (p, t) (insert_changes t ps changes)

-- `changed`
unfoldable pub changed_files : DiffReport → List (Text × ChangeType)
unfolding insert_changes
changed_files r =
    insert_changes added r.added
      (insert_changes removed r.removed (insert_changes modified r.modified []))

abbrev is_accepted : Action → Bool
is_accepted declined = false
is_accepted _ = true

-- The paths of the entries that the test on their action takes.
unfoldable pub paths_where : (Action → Bool) → List Entry → List Text
paths_where f [] = []
paths_where f (e ∷ es) = if f e.action then e.path ∷ paths_where f es else paths_where f es

unfoldable pub summary : ℕ → Session → Summary
unfolding paths_where
summary n s =
    let all = s.result_added ++ (s.result_removed ++ s.result_modified) in
    record {
      status = updated;
      added_entries = s.result_added;
      removed_entries = s.result_removed;
      modified_entries = s.result_modified;
      unchanged = n;
      accepted_paths = paths_where is_accepted all;
      declined_paths = paths_where (λ a. not (is_accepted a)) all;
    }

abbrev pub nothing_changed : ℕ → Summary
nothing_changed n = record {
  status = current;
  added_entries = [];
  removed_entries = [];
  modified_entries = [];
  unchanged = n;
  accepted_paths = [];
  declined_paths = [];
}

abbrev pub summed_up : ℕ → Option Session → Option (Summary × Dict Bytes)
unfolding summary
summed_up n none = none
summed_up n (some s) = some (summary n s, s.files)

-- The session at the start of the loop.
abbrev pub start_session : Dict Bytes → List Text → List EditorRun → Session
start_session files input runs = record {
  files = files;
  review = record { accept_all = false; decline_all = false; input = input };
  runs = runs;
  result_added = [];
  result_removed = [];
  result_modified = [];
  stopped = false;
}

module _ (u : Unicode) (c : Codec) (opcodes : Opcodes) (o : Options)
    (source_files user_files : Dict Bytes) (target_mapping : Dict Text) where
  unfoldable pub update_of : Update
  unfolding stripped_files source_formats user_formats
  update_of = record {
    interactive = o.interactive;
    auto_approve = o.auto_approve;
    force = o.force;
    dry_run = o.dry_run;
    source_files = source_files;
    user_files = user_files;
    source_stripped = stripped_files c source_files [];
    user_stripped = stripped_files c user_files [];
    toc_formats = user_formats c user_files (source_formats c source_files []);
    target_mapping = target_mapping;
    user_dir = o.user_dir;
  }

  -- The summary and the files behind it; `none` where a run of the editor is still to come.
  unfoldable pub update_files :
      Dict Bytes → List Text → List EditorRun → Option (Summary × Dict Bytes)
  unfolding classify_kit_files changed_files review_loop update_of summed_up
  update_files files input runs =
      let report = classify_kit_files source_files user_files in
      let n = length report.unchanged in
      if has_changes report
      then summed_up n (
          review_loop u c opcodes update_of (changed_files report) (start_session files input runs))
      else some (nothing_changed n, files)
