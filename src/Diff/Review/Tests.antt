-- ===== src/Diff/Review/Tests.antt =====
-- Runs of the review, and its laws at those runs.
use katapult.Base.{◌≡◌, refl, true, false, List, [], ◌∷◌, ◌++◌, some, arith}
use katapult.Base.Lists.{All}
use katapult.Base.Text.{Text, txt, text_dec}
use katapult.Base.Dict.{Dict, lookup}
use katapult.Base.Unicode.{ascii}
use katapult.Diff.Codec.{Bytes, plain}
use katapult.Diff.Merge.{saved, Opcodes}
use katapult.Diff.Prompt.Bulk.{begin}
use katapult.Diff.Review.{
  ChangeType, added, removed, modified, accepted, merged, Update, Session, dest_of, review_loop,
  bytes_or,
}
use katapult.Diff.Review.Frame.{review_loop-frame, review_loop-dry_run}
use katapult.Diff.Review.Forced.{review_loop-forced}

abbrev changed : List (Text × ChangeType)
unfolding txt
changed = (txt "a.md", modified) ∷ (txt "b.md", added) ∷ (txt "c.md", removed) ∷ []

abbrev update : Update
unfolding txt
update = record {
  interactive = true;
  auto_approve = false;
  force = false;
  dry_run = false;
  source_files = (txt "a.md", txt "new") ∷ (txt "b.md", txt "b") ∷ [];
  user_files = (txt "a.md", txt "old") ∷ (txt "c.md", txt "c") ∷ [];
  source_stripped = (txt "a.md", txt "new") ∷ (txt "b.md", txt "b") ∷ [];
  user_stripped = (txt "a.md", txt "old") ∷ (txt "c.md", txt "c") ∷ [];
  toc_formats = [];
  target_mapping = (txt "b.md", txt "docs/b.md") ∷ [];
  user_dir = txt "kit";
}

abbrev installed : Dict Bytes
unfolding txt
installed = (txt "kit/a.md", txt "old") ∷ (txt "kit/c.md", txt "c") ∷ (txt "other", txt "o") ∷ []

-- The first file is merged by hand, the others are accepted.
abbrev start : Session
unfolding txt
start = record {
  files = installed;
  review = begin (txt "m" ∷ txt "A" ∷ []);
  runs = saved (txt "both") ∷ [];
  result_added = [];
  result_removed = [];
  result_modified = [];
  stopped = false;
}

abbrev no_opcodes : Opcodes
no_opcodes old new = []

abbrev final : Session
unfolding txt
final = record {
  files = (txt "kit/a.md", txt "both") ∷ (txt "other", txt "o") ∷ (txt "docs/b.md", txt "b") ∷ [];
  review = record { accept_all = true; decline_all = false; input = [] };
  runs = [];
  result_added = record { path = txt "b.md"; action = accepted } ∷ [];
  result_removed = record { path = txt "c.md"; action = accepted } ∷ [];
  result_modified = record { path = txt "a.md"; action = merged } ∷ [];
  stopped = false;
}

review_loop_result : review_loop ascii plain no_opcodes update changed start ≡ some final
unfolding review_loop text_dec txt
review_loop_result = refl

abbrev other : Text
unfolding txt
other = txt "other"

other_untouched : All (λ (e : Text × ChangeType). ¬ (other ≡ dest_of update e.0)) changed
unfolding dest_of lookup text_dec changed update other txt
other_untouched = (λ e. ground arith, (λ e. ground arith, (λ e. ground arith, tt)))

review_loop-frame_example : lookup other final.files ≡ lookup other start.files
review_loop-frame_example =
    review_loop-frame ascii plain no_opcodes update other changed start final other_untouched
      review_loop_result

abbrev dry : Update
unfolding update
dry = record update { dry_run = true }

abbrev dry_final : Session
unfolding final start
dry_final = record final { files = installed }

dry_result : review_loop ascii plain no_opcodes dry changed start ≡ some dry_final
unfolding review_loop text_dec txt
dry_result = refl

review_loop-dry_run_example : dry_final.files ≡ start.files
unfolding dry
review_loop-dry_run_example =
    review_loop-dry_run ascii plain no_opcodes dry changed start dry_final refl dry_result

abbrev forced : Update
unfolding update
forced = record update { force = true }

abbrev a_md : Text
unfolding txt
a_md = txt "a.md"

abbrev after_a : List (Text × ChangeType)
unfolding txt
after_a = (txt "b.md", added) ∷ []

after_a_elsewhere :
    All (λ (e : Text × ChangeType). ¬ (dest_of forced a_md ≡ dest_of forced e.0)) after_a
unfolding dest_of lookup text_dec after_a forced update a_md txt
after_a_elsewhere = (λ e. ground arith, tt)

review_loop-forced_example :
    (last : Session) × (review_loop ascii plain no_opcodes forced
        ([] ++ (a_md, modified) ∷ after_a)
        start
      ≡ some last)
    × (lookup (dest_of forced a_md) last.files
        ≡ some (bytes_or [] (lookup a_md forced.source_files)))
unfolding forced
review_loop-forced_example =
    review_loop-forced ascii plain no_opcodes forced [] after_a a_md modified start refl refl refl
      refl after_a_elsewhere
