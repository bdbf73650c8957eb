-- ===== src/Diff/Update/Tests.antt =====
-- A run of the whole update, and its law at a run.
use katapult.Base.{◌≡◌, ◌↔◌, refl, true, false, List, [], ◌∷◌, some}
use katapult.Base.Text.{Text, txt, text_dec}
use katapult.Base.Dict.{Dict, lookup}
use katapult.Base.Unicode.{ascii}
use katapult.Diff.Codec.{Bytes, plain}
use katapult.Diff.Merge.{Opcodes}
use katapult.Diff.Review.{accepted, declined}
use katapult.Diff.Update.{Options, current, updated, nothing_changed, update_files}
use katapult.Diff.Update.Current.{update_files-current}

abbrev options : Options
unfolding txt
options = record {
  interactive = true;
  auto_approve = false;
  force = false;
  dry_run = false;
  user_dir = txt "kit";
}

abbrev upstream : Dict Bytes
unfolding txt
upstream = (txt "b.md", txt "b") ∷ (txt "a.md", txt "new") ∷ (txt "d.md", txt "d") ∷ []

abbrev yours : Dict Bytes
unfolding txt
yours = (txt "a.md", txt "old") ∷ (txt "c.md", txt "c") ∷ (txt "d.md", txt "d") ∷ []

abbrev installed : Dict Bytes
unfolding txt
installed = (txt "kit/a.md", txt "old") ∷ (txt "kit/c.md", txt "c") ∷ []

abbrev no_opcodes : Opcodes
no_opcodes old new = []

-- The answers: accept a.md, decline b.md, accept the removal of c.md.
abbrev typed : List Text
unfolding txt
typed = txt "a" ∷ txt "d" ∷ txt "a" ∷ []

update_files_result :
    update_files ascii plain no_opcodes options upstream yours [] installed typed []
    ≡ some (
      record {
        status = updated;
        added_entries = record { path = txt "b.md"; action = declined } ∷ [];
        removed_entries = record { path = txt "c.md"; action = accepted } ∷ [];
        modified_entries = record { path = txt "a.md"; action = accepted } ∷ [];
        unchanged = 1;
        accepted_paths = txt "c.md" ∷ txt "a.md" ∷ [];
        declined_paths = txt "b.md" ∷ [];
      },
      (txt "kit/a.md", txt "new") ∷ [],
    )
unfolding update_files text_dec txt
update_files_result = refl

update_files_same :
    update_files ascii plain no_opcodes options yours yours [] installed typed []
    ≡ some (nothing_changed 3, installed)
unfolding update_files text_dec txt
update_files_same = refl

update_files-current_example :
    ((nothing_changed 3).status ≡ current) ↔ ((k : Text) → lookup k yours ≡ lookup k yours)
update_files-current_example =
    update_files-current ascii plain no_opcodes options yours yours [] installed typed []
      (nothing_changed 3) installed update_files_same
