-- ===== src/Toc/Process.antt =====
-- `process_file` of toc.py. The file is its text, or `none` where there is no file; a run returns
-- the text that it writes, if it writes, and its result.
pub mod Writes
use katapult.Base.{
  ℕ, zero, suc, Bool, true, false, not, List, [], ◌∷◌, Option, none, some, if◌then◌else◌,
}
use katapult.Base.Lists.{length}
use katapult.Base.Text.{Text, split_on, text_eq, text_dec}
use katapult.Base.Unicode.{Unicode}
use katapult.Toc.Headings.{parse_headings}
use katapult.Toc.Markers.{insert_toc_markers, marker_options}
use katapult.Toc.Section.{strip_manual_toc}

-- The `status` of a result, with what else it holds.
pub data Outcome : Type 0 where
  not_found : Outcome
  skipped : Outcome
  unchanged : ℕ → Outcome
  -- the number of headings, and whether a manual table was removed
  would_update : ℕ → Bool → Outcome
  updated : ℕ → Bool → Outcome

module _ (u : Unicode) (max_level indent_size : ℕ) (dry_run : Bool) where
  -- The end of the function, on the original text, the new one, the number of headings and whether
  -- a manual table was removed.
  unfoldable pub conclude : Text → Text → ℕ → Bool → Option Text × Outcome
  conclude original new_content headings removed =
      if text_eq new_content original
      then (none, unchanged headings)
      else if dry_run
      then (none, would_update headings removed)
      else (some new_content, updated headings removed)

  unfoldable pub process_text : Text → Option Text × Outcome
  unfolding strip_manual_toc insert_toc_markers parse_headings conclude split_on
  process_text original =
      let (content, removed) = strip_manual_toc original in
      let new_content = insert_toc_markers u max_level indent_size content in
      let headings = length (parse_headings u (marker_options max_level) (split_on 10 content)) in
      elim headings [
        | zero ↦ (none, skipped)
        | suc n ↦ conclude original new_content (suc n) removed
      ]

  unfoldable pub process_file : Option Text → Option Text × Outcome
  unfolding process_text
  process_file none = (none, not_found)
  process_file (some original) = process_text original
