-- ===== src/Toc/Process/Writes.antt =====
-- When `process_file` writes.
use katapult.Base.{ℕ, zero, suc, ◌≡◌, ◌≢◌, Bool, true, false, Option, none, some, arith}
use katapult.Base.Lists.{length}
use katapult.Base.Text.{Text, split_on}
use katapult.Base.Unicode.{Unicode}
use katapult.Toc.Headings.{parse_headings}
use katapult.Toc.Markers.{insert_toc_markers, marker_options}
use katapult.Toc.Section.{strip_manual_toc}
use katapult.Toc.Process.{Outcome, skipped, unchanged, would_update, updated, conclude}
use katapult.Toc.Process.{process_text, process_file}

-- What a run that writes, or does not, says of itself and of the text.
abbrev pub Agrees : Bool → Text → Option Text × Outcome → Type 0
Agrees dry t (some w, updated n removed) = (dry ≡ false) × (w ≢ t) × (n ≢ 0)
Agrees dry t (none, unchanged n) = n ≢ 0
Agrees dry t (none, would_update n removed) = (dry ≡ true) × (n ≢ 0)
Agrees dry t (none, skipped) = Unit
Agrees dry t _ = ⊥

module _ (u : Unicode) (max_level indent_size : ℕ) (dry : Bool) where
  conclude-Agrees :
      (t new_content : Text) (n : ℕ) (removed : Bool)
      → n ≢ 0
      → Agrees dry t (conclude u max_level indent_size dry t new_content n removed)
  unfolding conclude
  conclude-Agrees t new_content n removed h = ground arith

  outcome-Agrees :
      (t new_content : Text) (n : ℕ) (removed : Bool)
      → Agrees dry t (elim n [
        | zero ↦ (none, skipped)
        | suc m ↦ conclude u max_level indent_size dry t new_content (suc m) removed
      ])
  outcome-Agrees t new_content zero removed = tt
  outcome-Agrees t new_content (suc m) removed =
      conclude-Agrees t new_content (suc m) removed (omega arith)

  -- A run on a file writes exactly when it reports an update: then it is no dry run, the text
  -- written differs from the one in the file, and there are headings. A run that reports no
  -- change, a skip or what it would update writes nothing.
  pub process_file-Agrees :
      (t : Text) → Agrees dry t (process_file u max_level indent_size dry (some t))
  unfolding process_file process_text
  process_file-Agrees t =
      let content = (strip_manual_toc t).0 in
      outcome-Agrees t (insert_toc_markers u max_level indent_size content)
        (length (parse_headings u (marker_options max_level) (split_on 10 content)))
        (strip_manual_toc t).1
