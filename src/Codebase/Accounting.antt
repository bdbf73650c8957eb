-- ===== src/Codebase/Accounting.antt =====
-- What is counted of a scan by codebase.py: the matches of a pattern, and the errors of each code.
use mathlib.Core.List.{foldl}
use katapult.Base.{ℕ, ◌+◌, ◌≡◌, refl, Bool, true, false, List, [], ◌∷◌, some}
use katapult.Base.Lists.{length}
use katapult.Base.Count.{foldl-keeps}
use katapult.Base.Text.{Text}
use katapult.Base.Unicode.{Unicode}
use katapult.Regex.{Regex, Match, finditer}
use katapult.ErrorCodes.{marker_dup_begin, marker_end_no_begin, marker_begin_no_end}
use katapult.Issue.{Issue}
use katapult.Codebase.Data.{CodeFile, BlockMarker}
use katapult.Codebase.Scan.{scope_marker}

abbrev pub is_dup_begin : Issue → Bool
is_dup_begin e = elim e.code [ some marker_dup_begin ↦ true | _ ↦ false ]

abbrev pub is_end_no_begin : Issue → Bool
is_end_no_begin e = elim e.code [ some marker_end_no_begin ↦ true | _ ↦ false ]

abbrev pub is_begin_no_end : Issue → Bool
is_begin_no_end e = elim e.code [ some marker_begin_no_end ↦ true | _ ↦ false ]

-- How many matches of a pattern the lines hold.
unfoldable pub matches : Regex → List Text → ℕ
matches r [] = 0
matches r (line ∷ lines) = length (finditer r line) + matches r lines

module _ (u : Unicode) where
  -- Scope markers touch neither the blocks nor the errors.
  pub scope_markers-keep :
      (n : ℕ) (line : Text) (f : CodeFile) (ms : List Match)
      → ◌≡◌ {A = List BlockMarker × List Issue}
          (
            (foldl (scope_marker u n line) f ms).block_markers,
            (foldl (scope_marker u n line) f ms).errors,
          )
          (f.block_markers, f.errors)
  unfolding scope_marker
  scope_markers-keep n line f ms =
      foldl-keeps (scope_marker u n line) (λ g. (g.block_markers, g.errors)) (λ g m. refl) ms f
