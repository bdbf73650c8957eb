-- ===== src/Codebase/Scan.antt =====
-- The marker scanner of codebase.py: `CodeFile._parse_markers`, `load` and `from_path`.
use mathlib.Core.List.{foldl}
use katapult.Base.{ℕ, ◌+◌, Bool, true, ◌||◌, List, [], ◌∷◌, ◌++◌, Option, none, some, if◌then◌else◌}
use katapult.Base.Lists.{is_nil, all, slice}
use katapult.Base.Text.{Text, txt, strip, splitlines, fstring}
use katapult.Base.Dict.{Dict, lookup, insert, erase}
use katapult.Base.Unicode.{Unicode, int}
use katapult.Regex.{Match, finditer, captured}
use katapult.Issue.{FilePath, Issue}
use katapult.Codebase.Data.{CodeFile, code_file}
use katapult.Codebase.Problems.{
  OpenBlock, read_error, dup_begin_error, end_no_begin_error, empty_block_error, begin_no_end_error,
}
use katapult.Codebase.Data.{scope, block, add_error}
use katapult.Codebase.Data.{kind_group, id_group, phase_group, inst_group}
use katapult.Codebase.Data.{scope_marker_re, block_begin_re, block_end_re}

-- The file as far as it is scanned, and its open blocks by key.
pub record Scan : Type 0 where
  pub file : CodeFile
  pub open_blocks : Dict OpenBlock

-- What reading a file gives: its text, or the text of the exception.
pub data Read : Type 0 where
  contents : Text → Read
  failed : Text → Read

-- `not content or all(not ln.strip() for ln in content)`
unfoldable pub is_empty_block : List Text → Bool
unfolding all strip
is_empty_block content = is_nil content || all (λ l. is_nil (strip l)) content

-- `f"{id}:{phase}:{inst}"` of a begin or end marker.
unfoldable pub block_key : Match → Text
unfolding txt
block_key m = fstring (
    captured id_group m.groups
    ∷ txt ":"
    ∷ captured phase_group m.groups
    ∷ txt ":"
    ∷ captured inst_group m.groups
    ∷ [])

-- What closing `o` at the line adds to the file.
unfoldable pub close_block : List Text → ℕ → OpenBlock → CodeFile → CodeFile
unfolding is_empty_block empty_block_error
close_block lines idx o f =
    let content = slice o.line idx lines in
    record f {
      errors =
          if is_empty_block content
          then f.errors ++ empty_block_error f.path o (idx + 1) ∷ []
          else f.errors;
      block_markers =
          f.block_markers
          ++ (record {
            id = o.id;
            phase = o.phase;
            inst = o.inst;
            start_line = o.line;
            end_line = idx + 1;
            content = content;
          }
              ∷ []);
      references =
          f.references
          ++ (record {
            id = o.id;
            line = o.line;
            kind = none;
            phase = some o.phase;
            inst = some o.inst;
            marker_type = block;
          }
              ∷ []);
    }

-- The blocks that were never closed.
unfoldable pub report_unclosed : Dict OpenBlock → CodeFile → CodeFile
unfolding begin_no_end_error
report_unclosed [] f = f
report_unclosed ((key, o) ∷ open_blocks) f =
    report_unclosed open_blocks (add_error f (begin_no_end_error f.path o))

module _ (u : Unicode) where
  -- The body of the loop over `_SCOPE_MARKER_RE.finditer(line)`.
  unfoldable pub scope_marker : ℕ → Text → CodeFile → Match → CodeFile
  unfolding int
  scope_marker line_no line f m =
      let kind = captured kind_group m.groups in
      let id = captured id_group m.groups in
      let phase = int u (captured phase_group m.groups) in
      record f {
        scope_markers =
            f.scope_markers
            ++ (record { kind = kind; id = id; phase = phase; line = line_no; raw = line } ∷ []);
        references =
            f.references
            ++ (record {
              id = id;
              line = line_no;
              kind = some kind;
              phase = some phase;
              inst = none;
              marker_type = scope;
            }
                ∷ []);
      }

  -- What a begin marker puts among the open blocks.
  unfoldable pub opened : ℕ → Match → OpenBlock
  unfolding int
  opened line_no m = record {
    line = line_no;
    id = captured id_group m.groups;
    phase = int u (captured phase_group m.groups);
    inst = captured inst_group m.groups;
  }

  -- The body of the loop over `_BLOCK_BEGIN_RE.finditer(line)`, on what is open under the key.
  unfoldable pub begin_found : ℕ → Scan → Match → Option OpenBlock → Scan
  unfolding opened dup_begin_error
  begin_found line_no s m (some o) =
      let id = captured id_group m.groups in
      let inst = captured inst_group m.groups in
      record s { file = add_error s.file (dup_begin_error s.file.path id inst line_no) }
  begin_found line_no s m none = record s {
    open_blocks = insert (block_key m) (opened line_no m) s.open_blocks;
  }

  unfoldable pub begin_marker : ℕ → Scan → Match → Scan
  unfolding begin_found block_key
  begin_marker line_no s m = begin_found line_no s m (lookup (block_key m) s.open_blocks)

  -- The body of the loop over `_BLOCK_END_RE.finditer(line)`, on what is open under the key.
  unfoldable pub end_found : List Text → ℕ → Scan → Match → Option OpenBlock → Scan
  unfolding end_no_begin_error close_block
  end_found lines idx s m none =
      let id = captured id_group m.groups in
      let inst = captured inst_group m.groups in
      record s { file = add_error s.file (end_no_begin_error s.file.path id inst (idx + 1)) }
  end_found lines idx s m (some o) = record {
    file = close_block lines idx o s.file;
    open_blocks = erase (block_key m) s.open_blocks;
  }

  unfoldable pub end_marker : List Text → ℕ → Scan → Match → Scan
  unfolding end_found block_key
  end_marker lines idx s m = end_found lines idx s m (lookup (block_key m) s.open_blocks)

  -- One line: its scope markers, then its begins, then its ends.
  unfoldable pub scan_line : List Text → ℕ → Text → Scan → Scan
  unfolding finditer scope_marker begin_marker end_marker
  scan_line lines idx line s =
      let f = foldl (scope_marker (idx + 1) line) s.file (finditer (scope_marker_re u) line) in
      let begun =
        foldl (begin_marker (idx + 1)) (record s { file = f }) (finditer (block_begin_re u) line) in
      foldl (end_marker lines idx) begun (finditer (block_end_re u) line)

  -- The loop over the lines from the index on.
  unfoldable pub scan_lines : List Text → ℕ → List Text → Scan → Scan
  unfolding scan_line
  scan_lines lines idx [] s = s
  scan_lines lines idx (line ∷ rest) s =
      scan_lines lines (idx + 1) rest (scan_line lines idx line s)

  -- `_parse_markers`
  unfoldable pub parse_markers : List Text → CodeFile → CodeFile
  unfolding scan_lines report_unclosed
  parse_markers lines f =
      let s = scan_lines lines 0 lines (record { file = f; open_blocks = [] }) in
      report_unclosed s.open_blocks s.file

  -- `load` of a file that is not loaded yet.
  unfoldable pub read_and_parse : Read → CodeFile → CodeFile × List Issue
  unfolding parse_markers splitlines read_error
  read_and_parse (contents t) f =
      let g = record (parse_markers (splitlines t) f) { loaded = true } in (g, g.errors)
  read_and_parse (failed e) f = let err = read_error f.path e in (add_error f err, err ∷ [])

  unfoldable pub load : Read → CodeFile → CodeFile × List Issue
  unfolding read_and_parse
  load r f = if f.loaded then (f, f.errors) else read_and_parse r f

  -- `from_path`, and the wrapper `load_code_file`.
  unfoldable pub from_path : Read → FilePath → Option CodeFile × List Issue
  unfolding load
  from_path r path =
      let (f, errs) = load r (code_file path) in if is_nil errs then (some f, []) else (none, errs)
