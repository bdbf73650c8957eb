-- ===== src/Codebase/Blocks.antt =====
-- The blocks that the scanner of codebase.py records, and their lines.
use mathlib.Core.List.{foldl}
use katapult.Base.{
  ℕ, ◌+◌, ◌-◌, ◌≤◌, ◌≡◌, refl, ap, sym, subst, List, [], ◌∷◌, Option, none, some, arith,
}
use katapult.Base.Lists.{length, slice, All, All-append, All-map}
use katapult.Base.Count.{foldl-keeps, foldl-invariant}
use katapult.Base.Dict.{Dict, lookup, All-insert, All-erase, All-lookup}
use katapult.Base.Text.{Text}
use katapult.Base.Unicode.{Unicode}
use katapult.Regex.{Match, finditer}
use katapult.Issue.{FilePath}
use katapult.Codebase.Data.{CodeFile, BlockMarker, code_file}
use katapult.Codebase.Data.{scope_marker_re, block_begin_re, block_end_re}
use katapult.Codebase.Scan.{
  Scan, opened, scope_marker, begin_found, begin_marker, end_found, end_marker,
}
use katapult.Codebase.Problems.{OpenBlock}
use katapult.Codebase.Scan.{block_key, scan_line, scan_lines, report_unclosed, parse_markers}

-- A block between two lines of the file, with the lines between them.
pub record IsBlock (lines : List Text) (b : BlockMarker) : Type 0 where
  pub starts : 1 ≤ b.start_line
  pub ordered : b.start_line ≤ b.end_line
  pub ends : b.end_line ≤ length lines
  pub content_is : b.content ≡ slice b.start_line (b.end_line - 1) lines

-- A block that was begun on one of the first lines.
abbrev IsOpen : ℕ → OpenBlock → Type 0
IsOpen n o = (1 ≤ o.line) × (o.line ≤ n)

record Inv (lines : List Text) (n : ℕ) (s : Scan) : Type 0 where
  blocks : All (IsBlock lines) s.file.block_markers
  open_ones : All (λ (e : Text × OpenBlock). IsOpen n e.1) s.open_blocks

abbrev block_of : List Text → ℕ → OpenBlock → BlockMarker
block_of lines i o = record {
  id = o.id;
  phase = o.phase;
  inst = o.inst;
  start_line = o.line;
  end_line = i + 1;
  content = slice o.line i lines;
}

module _ (u : Unicode) (lines : List Text) where
  begin_found-Inv :
      (n : ℕ) (s : Scan) (m : Match) (o : Option OpenBlock)
      → 1 ≤ n
      → Inv lines n s
      → Inv lines n (begin_found u n s m o)
  unfolding begin_found
  begin_found-Inv n s m none p v = record {
    blocks = v.blocks;
    open_ones =
        All-insert (IsOpen n) (block_key m) (opened u n m) s.open_blocks
          (unfold opened in omega arith) v.open_ones;
  }
  begin_found-Inv n s m (some o) p v = record { blocks = v.blocks; open_ones = v.open_ones }

  end_found-Inv :
      (i : ℕ) (s : Scan) (m : Match) (o : Option OpenBlock)
      → i + 1 ≤ length lines
      → lookup (block_key m) s.open_blocks ≡ o
      → Inv lines (i + 1) s
      → Inv lines (i + 1) (end_found u lines i s m o)
  unfolding end_found
  end_found-Inv i s m none h e v = record { blocks = v.blocks; open_ones = v.open_ones }
  end_found-Inv i s m (some o) h e v =
      let found = All-lookup (IsOpen (i + 1)) (block_key m) s.open_blocks o v.open_ones e in
      record {
        blocks =
            All-append (IsBlock lines) s.file.block_markers (block_of lines i o ∷ []) v.blocks (
              record {
                starts = found.0;
                ordered = found.1;
                ends = h;
                content_is = ap (λ (t : ℕ). slice o.line t lines) (omega arith);
              },
              tt,
            );
        open_ones = All-erase (IsOpen (i + 1)) (block_key m) s.open_blocks v.open_ones;
      }

  scan_line-Inv :
      (i : ℕ) (line : Text) (s : Scan)
      → i + 1 ≤ length lines
      → Inv lines i s
      → Inv lines (i + 1) (scan_line u lines i line s)
  unfolding scan_line
  scan_line-Inv i line s h v =
      let f = foldl (scope_marker u (i + 1) line) s.file (finditer (scope_marker_re u) line) in
      let t : Scan = record s { file = f } in
      let kept =
        foldl-keeps (scope_marker u (i + 1) line) (λ g. g.block_markers)
          (λ g m. unfold scope_marker in refl) (finditer (scope_marker_re u) line) s.file in
      let later =
        All-map (λ (e : Text × OpenBlock). IsOpen (i + 1) e.1)
          (λ (e : Text × OpenBlock) (p : IsOpen i e.1). omega arith) s.open_blocks v.open_ones in
      foldl-invariant (Inv lines (i + 1)) (end_marker u lines i)
        (λ w m. end_found-Inv i w m (lookup (block_key m) w.open_blocks) h refl)
        (finditer (block_end_re u) line) _
        (foldl-invariant (Inv lines (i + 1)) (begin_marker u (i + 1))
          (λ w m. begin_found-Inv (i + 1) w m (lookup (block_key m) w.open_blocks) (omega arith))
          (finditer (block_begin_re u) line) t
          (record { blocks = subst (All (IsBlock lines)) (sym kept) v.blocks; open_ones = later }))

  scan_lines-Inv :
      (i : ℕ) (rest : List Text) (s : Scan)
      → i + length rest ≡ length lines
      → Inv lines i s
      → Inv lines (length lines) (scan_lines u lines i rest s)
  unfolding scan_lines
  scan_lines-Inv i [] s h v = let e : i ≡ length lines = omega arith in rw e at v
  scan_lines-Inv i (line ∷ rest) s h v =
      scan_lines-Inv (i + 1) rest (scan_line u lines i line s) (omega arith)
        (scan_line-Inv i line s (omega arith) v)

report_unclosed-blocks :
    (d : Dict OpenBlock) (f : CodeFile) → (report_unclosed d f).block_markers ≡ f.block_markers
unfolding report_unclosed
report_unclosed-blocks [] f = refl
report_unclosed-blocks ((k, o) ∷ d) f = report_unclosed-blocks d _

-- Every block that the scan records lies within the file, its markers in order, and holds the
-- lines that stand between them.
pub parse_markers-IsBlock :
    (u : Unicode) (lines : List Text) (path : FilePath)
    → All (IsBlock lines) (parse_markers u lines (code_file path)).block_markers
unfolding parse_markers
parse_markers-IsBlock u lines path =
    let start : Scan = record { file = code_file path; open_blocks = [] } in
    let s = scan_lines u lines 0 lines start in
    subst (All (IsBlock lines)) (sym (report_unclosed-blocks s.open_blocks s.file))
      (scan_lines-Inv u lines 0 lines start (omega arith)
        (record { blocks = tt; open_ones = tt })).blocks
