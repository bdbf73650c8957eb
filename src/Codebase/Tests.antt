-- ===== src/Codebase/Tests.antt =====
-- Runs of the scanner and of the validators of code files, and the laws at those runs.
use katapult.Base.{◌≡◌, ◌≢◌, ◌↔◌, refl, ◌+◌, List, [], ◌∷◌, none, some, map, arith, true, leb}
use katapult.Base.Lists.{All}
use katapult.Base.Count.{count_by}
use katapult.Base.Sorted.{sorted_set}
use katapult.Base.Text.{Text, txt, text_dec, strip, splitlines, is_space}
use katapult.Base.Unicode.{ascii}
use katapult.Base.Dict.{lookup, insert, erase}
use katapult.Issue.{FilePath}
use katapult.ErrorCodes.{code_docs_only}
use katapult.Codebase.Data.{
  CodeFile, code_file, scope, block, scope_marker_re, block_begin_re, block_end_re,
}
use katapult.Codebase.Scan.{contents, from_path, parse_markers}
use katapult.Codebase.Accounting.{matches, is_dup_begin, is_end_no_begin, is_begin_no_end}
use katapult.Codebase.Balance.{from_path-balanced}
use katapult.Codebase.Pairing.{Test, tally, starts_at, ends_at, reports}
use katapult.Codebase.Paired.{parse_markers-paired}
use katapult.Codebase.Blocks.{IsBlock, parse_markers-IsBlock}
use katapult.Codebase.Query.{validate}
use katapult.Codebase.Query.Unique.{validate-clean, IsDistinct, scope_keys}
use katapult.Codebase.Cross.Validate.{Request, cross_validate_code}
use katapult.Codebase.Cross.Sound.{IsTraced, cross_validate_code-IsTraced}

abbrev a_py : FilePath
unfolding txt
a_py = txt "a.py"

-- A flow with one implemented instruction.
abbrev clean : Text
unfolding txt
clean =
    txt
      "# @cpt-flow:cpt-a-b:p1\n# @cpt-begin:cpt-a-b:p1:inst-x\nreturn 1\n# @cpt-end:cpt-a-b:p1:inst-x\n"

-- An empty block, a block that is begun twice and never closed, and an end without a begin.
abbrev broken : List Text
unfolding txt
broken =
    txt "# @cpt-begin:cpt-a-b:p1:inst-x"
    ∷ txt "# @cpt-end:cpt-a-b:p1:inst-x"
    ∷ txt "# @cpt-begin:cpt-a-b:ph-12:inst-y"
    ∷ txt "# @cpt-begin:cpt-a-b:p12:inst-y @cpt-end:cpt-c-d:p2:inst-z"
    ∷ []

abbrev clean_file : CodeFile
unfolding txt
clean_file = record {
  path = a_py;
  scope_markers =
      record {
        kind = txt "flow";
        id = txt "cpt-a-b";
        phase = 1;
        line = 1;
        raw = txt "# @cpt-flow:cpt-a-b:p1";
      }
      ∷ [];
  block_markers =
      record {
        id = txt "cpt-a-b";
        phase = 1;
        inst = txt "x";
        start_line = 2;
        end_line = 4;
        content = txt "return 1" ∷ [];
      }
      ∷ [];
  references =
      record {
        id = txt "cpt-a-b";
        line = 1;
        kind = some (txt "flow");
        phase = some 1;
        inst = none;
        marker_type = scope;
      }
      ∷ record {
        id = txt "cpt-a-b";
        line = 2;
        kind = none;
        phase = some 1;
        inst = some (txt "x");
        marker_type = block;
      }
      ∷ [];
  errors = [];
  loaded = true;
}

from_path_result : (from_path ascii (contents clean) a_py).0 ≡ some clean_file
unfolding from_path text_dec txt splitlines lookup insert erase strip is_space block_begin_re
    block_end_re scope_marker_re
from_path_result = refl

broken_lines :
    map (λ e. e.line) (parse_markers ascii broken (code_file a_py)).errors ≡ 1 ∷ 4 ∷ 4 ∷ 3 ∷ []
unfolding parse_markers text_dec txt lookup insert erase strip is_space block_begin_re block_end_re
    scope_marker_re
broken_lines = refl

-- The markers of the lines from the third one on.
abbrev from_third : Test
from_third n id inst = leb 3 n

parse_markers-paired_example :
    let f = parse_markers ascii broken (code_file a_py) in
    (tally from_third (block_begin_re ascii) 0 broken
      ≡ count_by (starts_at from_third) f.block_markers
        + count_by (reports from_third is_dup_begin) f.errors
        + count_by (reports from_third is_begin_no_end) f.errors)
    × (tally from_third (block_end_re ascii) 0 broken
        ≡ count_by (ends_at from_third) f.block_markers
          + count_by (reports from_third is_end_no_begin) f.errors)
parse_markers-paired_example = parse_markers-paired ascii from_third broken a_py

from_path-balanced_example :
    (matches (block_begin_re ascii) (splitlines clean) ≡ 1)
    × (matches (block_end_re ascii) (splitlines clean) ≡ 1)
unfolding clean_file
from_path-balanced_example = from_path-balanced ascii clean a_py clean_file from_path_result

parse_markers-IsBlock_example :
    All (IsBlock broken) (parse_markers ascii broken (code_file a_py)).block_markers
parse_markers-IsBlock_example = parse_markers-IsBlock ascii broken a_py

validate-clean_example :
    ((validate clean_file).errors ≡ [])
    ↔ ((clean_file.errors ≡ []) × IsDistinct (scope_keys clean_file.scope_markers))
validate-clean_example = validate-clean clean_file

-- What artifacts say that define the flow, checked, with its instruction.
abbrev request : Request
unfolding txt
request = record {
  artifact_ids = txt "cpt-a-b" ∷ [];
  to_code_ids = txt "cpt-a-b" ∷ [];
  forbidden_code_ids = none;
  traceability = txt "FULL";
  artifact_instances = some ((txt "cpt-a-b", txt "x" ∷ []) ∷ []);
  artifact_instances_all = none;
}

abbrev docs_request : Request
unfolding txt
docs_request = record request { traceability = txt "DOCS-ONLY" }

docs_only_result :
    map (λ e. e.code) (cross_validate_code (clean_file ∷ []) docs_request).errors
    ≡ some code_docs_only ∷ []
unfolding cross_validate_code text_dec txt lookup insert sorted_set
docs_only_result = refl

no_errors_when_traced : (cross_validate_code (clean_file ∷ []) request).errors ≡ []
unfolding cross_validate_code text_dec txt lookup insert sorted_set
no_errors_when_traced = refl

is_full : request.traceability ≢ txt "DOCS-ONLY"
unfolding txt
is_full = λ e. ground arith

cross_validate_code-IsTraced_example :
    ((cross_validate_code (clean_file ∷ []) request).errors ≡ [])
    ↔ IsTraced (clean_file ∷ []) request
cross_validate_code-IsTraced_example =
    cross_validate_code-IsTraced (clean_file ∷ []) request is_full
