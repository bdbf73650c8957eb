-- ===== src/Codebase/Filled.antt =====
-- Empty blocks in codebase.py: the errors about them against the recorded blocks.
use katapult.Base.{◌≡◌, Bool, true, false, some}
use katapult.Base.Count.{count_by}
use katapult.Base.Dict.{Dict}
use katapult.Base.Text.{Text}
use katapult.Base.Unicode.{Unicode}
use katapult.ErrorCodes.{marker_empty_block}
use katapult.Issue.{Issue}
use katapult.Codebase.Data.{CodeFile, BlockMarker}
use katapult.Codebase.Scan.{Scan}
use katapult.Codebase.Scan.{is_empty_block}

abbrev pub is_empty_report : Issue → Bool
is_empty_report e = elim e.code [ some marker_empty_block ↦ true | _ ↦ false ]

abbrev pub has_no_content : BlockMarker → Bool
has_no_content b = is_empty_block b.content

-- As many reports as blocks without content.
abbrev Reports : CodeFile → Type 0
Reports f = count_by is_empty_report f.errors ≡ count_by has_no_content f.block_markers

abbrev Reported : Scan → Type 0
Reported s = Reports s.file
