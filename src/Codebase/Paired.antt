-- ===== src/Codebase/Paired.antt =====
-- The whole scan of codebase.py: each marker against the block or the error that is made of it.
use mathlib.Core.List.{foldl}
use katapult.Base.{ℕ, ◌+◌, ◌≡◌, refl, ap, Bool, false, List, [], ◌∷◌, ◌++◌, arith}
use katapult.Base.Lists.{All}
use katapult.Base.Count.{count_by, count_by-concat}
use katapult.Base.Dict.{Dict, lookup}
use katapult.Base.Entries.{count_values}
use katapult.Base.Text.{Text, txt, text_dec}
use katapult.Base.Unicode.{Unicode}
use katapult.Regex.{Match, finditer}
use katapult.Issue.{FilePath, Issue, error}
use katapult.Codebase.Data.{
  CodeFile, BlockMarker, code_file, scope_marker_re, block_begin_re, block_end_re,
}
use katapult.Codebase.Problems.{OpenBlock, begin_no_end_error}
use katapult.Codebase.Scan.{
  Scan, block_key, scope_marker, begin_marker, end_marker, scan_line, scan_lines, report_unclosed,
  parse_markers,
}
use katapult.Codebase.Accounting.{is_dup_begin, is_end_no_begin, is_begin_no_end}
use katapult.Codebase.Accounting.{scope_markers-keep}
use katapult.Codebase.Keys.{IsNamed, begins-IsNamed, ends-IsNamed}
use katapult.Codebase.Pairing.{
  Test, marks_at, tally, starts_at, ends_at, reports, opens_at, IsKept, Counted, bit,
  begin_found-Counted, end_found-Counted,
}

-- A fold over markers counts what its steps count.
fold-Counted :
    (p : Test) (f : Scan → Match → Scan) (x y : Match → Bool)
    → ((s : Scan) (m : Match)
        → IsNamed m
        → All IsKept s.open_blocks
        → Counted p (bit (x m)) (bit (y m)) s (f s m))
    → (ms : List Match) (s : Scan) → All IsNamed ms
    → All IsKept s.open_blocks
    → Counted p (count_by x ms) (count_by y ms) s (foldl f s ms)
unfolding count_by
fold-Counted p f x y step [] s h k = record {
  begins = omega arith;
  ends = omega arith;
  others = refl;
  kept = k;
}
fold-Counted p f x y step (m ∷ ms) s h k =
    let one = step s m h.0 k in
    let more = fold-Counted p f x y step ms (f s m) h.1 one.kept in
    record {
      begins = omega (arith, one.begins, more.begins);
      ends = omega (arith, one.ends, more.ends);
      others = omega (arith, one.others, more.others);
      kept = more.kept;
    }

none_counted : (ms : List Match) → count_by (λ (m : Match). false) ms ≡ 0
unfolding count_by
none_counted [] = refl
none_counted (m ∷ ms) = omega (arith, none_counted ms)

module _ (u : Unicode) (p : Test) where
  scan_line-Counted :
      (lines : List Text) (i : ℕ) (line : Text) (s : Scan)
      → All IsKept s.open_blocks
      → Counted p
          (count_by (marks_at p (i + 1)) (finditer (block_begin_re u) line))
          (count_by (marks_at p (i + 1)) (finditer (block_end_re u) line))
          s
          (scan_line u lines i line s)
  unfolding scan_line begin_marker end_marker
  scan_line-Counted lines i line s k =
      let f = foldl (scope_marker u (i + 1) line) s.file (finditer (scope_marker_re u) line) in
      let t : Scan = record s { file = f } in
      let bs = finditer (block_begin_re u) line in
      let es = finditer (block_end_re u) line in
      let b = foldl (begin_marker u (i + 1)) t bs in
      let same = scope_markers-keep u (i + 1) line s.file (finditer (scope_marker_re u) line) in
      let first =
        fold-Counted p (begin_marker u (i + 1)) (marks_at p (i + 1)) (λ m. false)
          (λ v m. begin_found-Counted u p (i + 1) v m (lookup (block_key m) v.open_blocks) refl) bs
          t (begins-IsNamed u line) k in
      let second =
        fold-Counted p (end_marker u lines i) (λ m. false) (marks_at p (i + 1))
          (λ v m. end_found-Counted u p lines i v m (lookup (block_key m) v.open_blocks) refl) es b
          (ends-IsNamed u line) first.kept in
      record {
        begins = omega (
          arith,
          first.begins,
          second.begins,
          none_counted es,
          ap
              (λ (v : List BlockMarker × List Issue).
                count_by (starts_at p) v.0
                + count_values (opens_at p) s.open_blocks
                + count_by (reports p is_dup_begin) v.1)
              same,
        );
        ends = omega (
          arith,
          first.ends,
          second.ends,
          none_counted bs,
          ap
              (λ (v : List BlockMarker × List Issue).
                count_by (ends_at p) v.0 + count_by (reports p is_end_no_begin) v.1)
              same,
        );
        others = omega (
          arith,
          first.others,
          second.others,
          ap (λ (v : List BlockMarker × List Issue). count_by (reports p is_begin_no_end) v.1) same,
        );
        kept = second.kept;
      }

  scan_lines-Counted :
      (lines : List Text) (i : ℕ) (rest : List Text) (s : Scan)
      → All IsKept s.open_blocks
      → Counted p
          (tally p (block_begin_re u) i rest)
          (tally p (block_end_re u) i rest)
          s
          (scan_lines u lines i rest s)
  unfolding scan_lines tally
  scan_lines-Counted lines i [] s k = record {
    begins = omega arith;
    ends = omega arith;
    others = refl;
    kept = k;
  }
  scan_lines-Counted lines i (line ∷ rest) s k =
      let one = scan_line-Counted lines i line s k in
      let more = scan_lines-Counted lines (i + 1) rest (scan_line u lines i line s) one.kept in
      record {
        begins = omega (arith, one.begins, more.begins);
        ends = omega (arith, one.ends, more.ends);
        others = omega (arith, one.others, more.others);
        kept = more.kept;
      }

-- Reporting the open blocks adds an error for each and touches nothing else.
record Reported (p : Test) (d : Dict OpenBlock) (f g : CodeFile) : Type 0 where
  same_blocks : g.block_markers ≡ f.block_markers
  dups : count_by (reports p is_dup_begin) g.errors ≡ count_by (reports p is_dup_begin) f.errors
  ends :
      count_by (reports p is_end_no_begin) g.errors ≡ count_by (reports p is_end_no_begin) f.errors
  left_open :
      count_by (reports p is_begin_no_end) g.errors
      ≡ count_by (reports p is_begin_no_end) f.errors + count_values (opens_at p) d

report_unclosed-Reported :
    (p : Test) (d : Dict OpenBlock) (f : CodeFile) → Reported p d f (report_unclosed d f)
unfolding report_unclosed begin_no_end_error error txt text_dec lookup count_by
report_unclosed-Reported p [] f = record {
  same_blocks = refl;
  dups = refl;
  ends = refl;
  left_open = omega arith;
}
report_unclosed-Reported p ((k, o) ∷ d) f =
    let e = begin_no_end_error f.path o in
    let r = report_unclosed-Reported p d (record f { errors = f.errors ++ e ∷ [] }) in
    record {
      same_blocks = r.same_blocks;
      dups = omega (arith, r.dups, count_by-concat (reports p is_dup_begin) f.errors e);
      ends = omega (arith, r.ends, count_by-concat (reports p is_end_no_begin) f.errors e);
      left_open =
          omega (arith, r.left_open, count_by-concat (reports p is_begin_no_end) f.errors e);
    }

module _ (u : Unicode) (p : Test) (lines : List Text) (path : FilePath) where
  -- Take any test of a line number, an id and an instance. As many begin markers of the lines pass
  -- it as there are recorded blocks that pass it by their start line, id and instance, and errors
  -- about a duplicate or a never closed begin that pass it by their line and the id and instance
  -- they name; and as many end markers pass it as there are recorded blocks that pass it by their
  -- end line, id and instance, and errors about an end without begin that pass it.
  pub parse_markers-paired :
      let f = parse_markers u lines (code_file path) in
      (tally p (block_begin_re u) 0 lines
        ≡ count_by (starts_at p) f.block_markers
          + count_by (reports p is_dup_begin) f.errors
          + count_by (reports p is_begin_no_end) f.errors)
      × (tally p (block_end_re u) 0 lines
          ≡ count_by (ends_at p) f.block_markers + count_by (reports p is_end_no_begin) f.errors)
  unfolding parse_markers count_by
  parse_markers-paired =
      let start : Scan = record { file = code_file path; open_blocks = [] } in
      let s = scan_lines u lines 0 lines start in
      let c = scan_lines-Counted u p lines 0 lines start tt in
      let r = report_unclosed-Reported p s.open_blocks s.file in
      omega (
        arith,
        c.begins,
        c.ends,
        c.others,
        r.dups,
        r.ends,
        r.left_open,
        ap (λ (bs : List BlockMarker). count_by (starts_at p) bs) r.same_blocks,
        ap (λ (bs : List BlockMarker). count_by (ends_at p) bs) r.same_blocks,
      )
