-- ===== src/Lib.antt =====
-- The core of cypilot, the traceability tool in
-- cypilot/.core/skills/cypilot/scripts/cypilot, as functions over values, with the theorems that
-- make it correct. The tool ties Markdown artifacts to code by `@cpt` markers, keeps tables of
-- contents in Markdown files, and updates installed kits file by file. Its modules below utils/
-- are modelled here, one file or folder each:
--
--   * ErrorCodes.antt: utils/error_codes.py, an enumeration with the text of each constant.
--   * Issue.antt: the `error` function of utils/codebase.py, which builds what validators report.
--   * Codebase: utils/codebase.py. Codebase/Data holds `ScopeMarker`, `BlockMarker`,
--     `CodeReference`, `CodeFile` and the three marker patterns. Codebase/Scan is
--     `CodeFile._parse_markers`, `load` and `from_path`: the state is the file as far as it is
--     scanned and the open blocks by key, and each loop body over `finditer` is one step
--     (`scope_marker`, `begin_marker`, `end_marker`). Codebase/Query has `list_ids`, `get`, `list`,
--     `get_by_inst`, `validate` and `validate_code_file`; Codebase/Cross and Codebase/Cross/Validate
--     have `cross_validate_code`, with one function per loop of it.
--   * Toc: utils/toc.py. Toc/Fence is `_fence_update`, Toc/Slug `github_anchor` and `_unique_slug`,
--     Toc/Headings `parse_headings`, Toc/Build `build_toc`, Toc/Lines the searches over lines,
--     Toc/Markers `insert_toc_markers`, Toc/Section `insert_toc_heading` and `_strip_manual_toc`,
--     Toc/Process `process_file`, Toc/Validate `validate_toc`.
--   * Diff: utils/diff_engine.py. Diff/Classify enumerates and classifies kit files, Diff/Merge
--     builds conflict files and runs the editor loop, Diff/Prompt has the prompts, Diff/Display what
--     is written to standard error, Diff/StripToc the removal and the regeneration of tables
--     of contents, which call Toc. Diff/Review is the loop of `file_level_kit_update` over the
--     changed files, on a store of files by path, and Diff/Update that function from the
--     enumerated files on: stripping, classification, the loop and the summary.
--   * Parsing: utils/parsing.py and the patterns of constants.py that it uses.
--   * Document: utils/document.py. Document/Ids is `scan_cpt_ids`, Document/Outline
--     `headings_by_line`, Document/Steps `scan_cdsl_instructions`, Document/Content
--     `get_content_scoped`, its three searches in Document/Content/Search; Document/Patterns has the
--     patterns. Each loop over the lines carries whether the line stands in a fence.
--   * Constraints: utils/constraints.py, its records in Constraints/Data and `cross_validate_artifacts`:
--     Constraints/Kinds and Constraints/Extract read the system and the kind off an id,
--     Constraints/Index collects the definitions and references of all artifacts,
--     Constraints/Structure has the four loops over the references, Constraints/Presence and
--     Constraints/Checks the loop over the artifacts, Constraints/Coverage the body of the loop over
--     the rules and Constraints/Cross the loops round it and the whole. Constraints/Toml has the
--     parsers of reference rules and of heading constraints.
--   * Regex: the part of Python's `re` that the patterns use. A pattern is a value of a data type
--     and matching gives all matches in the order in which `re` tries them, so the first one is
--     Python's. Base: texts as lists of code points, dicts as association lists in insertion order,
--     `sorted(set(…))`, and the helpers that the parts share.
--
-- The parts meet in values: the scanner's `CodeFile` goes to the queries and to the cross
-- validation, the ids and active headings that Document finds go to the index of Constraints, headings
-- and slugs go to the builder and to the validator of tables, and the update
-- engine calls both insertions of tables.
--
-- Arguments stand for what is not the program's own: Unicode's tables (`Unicode`: digits, word
-- characters, case), UTF-8 (`Codec`), `difflib` (the opcodes and the unified diff), a run of the
-- editor (`EditorRun`), standard input (the list of lines that are still to be read), the entries
-- of a directory, the text of a file or the exception that reading it raises (`Read`), the lines of
-- an artifact, the `repr` of a list, the order in which Python iterates over a
-- set of texts, and the error that compiling a pattern of constraints.toml raises.
--
-- All loops are structural recursion over lines, files, matches or dicts; the editor loop recurs on
-- the list of the editor's runs and gives `waiting` where one more run is needed. The only fuel is
-- that of `decimal n`, which is n + 1: each step divides by ten, so n + 1 steps are enough.
--
-- Numbers are natural numbers, as Python's integers are unbounded and no modelled function makes a
-- negative one; the limit on the digits that `int()` takes is left out. A set is a list that only
-- membership tests and `sorted` read.
--
-- Not modelled: the first part of `file_level_kit_update` of utils/diff_engine.py, which maps the
-- files to their targets and enumerates those that are bound elsewhere (its results are arguments),
-- and errors of the file system while writing; the walks over files of utils/document.py; of
-- utils/constraints.py the rest of the parser of constraints.toml, `validate_artifact_file` and
-- `heading_constraint_ids_by_line`, whose result the cross validation takes as an argument; the other
-- modules of utils/ (registries, configuration); the commands, which are front ends over files and the terminal; and
-- the Go service below katapult/ with its web client and deployment.
pub mod Base
pub mod Regex
pub mod ErrorCodes
pub mod Issue
pub mod Codebase
pub mod Toc
pub mod Diff
pub mod Parsing
pub mod Document
pub mod Constraints
