-- ===== src/Codebase/Pairing.antt =====
-- The markers that the scanner of codebase.py meets, and the blocks and errors that it makes of
-- them, with line, id and instance.
use katapult.Base.{
  ℕ, ◌+◌, ◌≡◌, refl, sym, ◌∙◌, Bool, ◌&&◌, List, [], ◌∷◌, Option, none, some, arith, if◌then◌else◌,
}
use katapult.Base.Lists.{All, slice}
use katapult.Base.Count.{count_by, count_by-concat}
use katapult.Base.Dict.{lookup}
use katapult.Base.Entries.{
  count_values, count-insert, count-erase, entries-insert, entries-erase, entries-lookup,
}
use katapult.Base.Text.{Text, txt, text_dec}
use katapult.Base.Unicode.{Unicode}
use katapult.Regex.{Regex, Match, finditer, captured}
use katapult.Issue.{Issue, Extra, str, error}
use katapult.Codebase.Data.{BlockMarker, id_group, inst_group}
use katapult.Codebase.Problems.{OpenBlock, dup_begin_error, end_no_begin_error, empty_block_error}
use katapult.Codebase.Scan.{Scan, block_key, opened, begin_found, close_block, end_found}
use katapult.Codebase.Accounting.{is_dup_begin, is_end_no_begin, is_begin_no_end}
use katapult.Codebase.Keys.{IsNamed, block_key-names}

abbrev text_of : Option Extra → Text
text_of (some (str t)) = t
text_of o = []

-- A test of a line number, an id and an instance.
abbrev pub Test : Type 0
Test = ℕ → Text → Text → Bool

module _ (p : Test) where
  abbrev pub marks_at : ℕ → Match → Bool
  marks_at n m = p n (captured id_group m.groups) (captured inst_group m.groups)

  -- How many matches of the pattern pass the test, of the lines behind the given number of them.
  unfoldable pub tally : Regex → ℕ → List Text → ℕ
  unfolding count_by finditer
  tally r i [] = 0
  tally r i (line ∷ lines) = count_by (marks_at (i + 1)) (finditer r line) + tally r (i + 1) lines

  abbrev pub starts_at : BlockMarker → Bool
  starts_at b = p b.start_line b.id b.inst

  abbrev pub ends_at : BlockMarker → Bool
  ends_at b = p b.end_line b.id b.inst

  -- An error of the kind passes the test, with the id and the instance that it names.
  abbrev pub reports : (Issue → Bool) → Issue → Bool
  unfolding lookup text_dec txt
  reports is_kind e =
      is_kind e
      && p e.line (text_of (lookup (txt "id") e.extra)) (text_of (lookup (txt "inst") e.extra))

  abbrev pub opens_at : OpenBlock → Bool
  opens_at o = p o.line o.id o.inst

  abbrev pub begun : Scan → ℕ
  begun s =
      count_by starts_at s.file.block_markers
      + count_values opens_at s.open_blocks
      + count_by (reports is_dup_begin) s.file.errors

  abbrev pub ended : Scan → ℕ
  ended s = count_by ends_at s.file.block_markers + count_by (reports is_end_no_begin) s.file.errors

  abbrev pub unclosed : Scan → ℕ
  unclosed s = count_by (reports is_begin_no_end) s.file.errors

-- An open block is kept under the key of the marker that opened it.
pub record IsKept (e : Text × OpenBlock) : Type 0 where
  by : Match
  named : IsNamed by
  key : e.0 ≡ block_key by
  same_id : e.1.id ≡ captured id_group by.groups
  same_inst : e.1.inst ≡ captured inst_group by.groups

-- A part of the scan meets so many begin and end markers that pass the test.
pub record Counted (p : Test) (x y : ℕ) (s t : Scan) : Type 0 where
  pub begins : begun p t ≡ begun p s + x
  pub ends : ended p t ≡ ended p s + y
  pub others : unclosed p t ≡ unclosed p s
  pub kept : All IsKept t.open_blocks

abbrev pub bit : Bool → ℕ
bit b = if b then 1 else 0

module _ (u : Unicode) (p : Test) where
  pub begin_found-Counted :
      (n : ℕ) (s : Scan) (m : Match) (o : Option OpenBlock)
      → lookup (block_key m) s.open_blocks ≡ o
      → IsNamed m
      → All IsKept s.open_blocks
      → Counted p (bit (marks_at p n m)) 0 s (begin_found u n s m o)
  unfolding begin_found dup_begin_error opened error txt text_dec lookup
  begin_found-Counted n s m none e h k = record {
    begins = omega (arith, count-insert (opens_at p) (block_key m) (opened u n m) s.open_blocks e);
    ends = omega arith;
    others = omega arith;
    kept =
        entries-insert IsKept (block_key m) (opened u n m) s.open_blocks
          (record { by = m; named = h; key = refl; same_id = refl; same_inst = refl }) k;
  }
  begin_found-Counted n s m (some o) e h k =
      let d =
        dup_begin_error s.file.path (captured id_group m.groups) (captured inst_group m.groups) n in
      record {
        begins = omega (arith, count_by-concat (reports p is_dup_begin) s.file.errors d);
        ends = omega (arith, count_by-concat (reports p is_end_no_begin) s.file.errors d);
        others = omega (arith, count_by-concat (reports p is_begin_no_end) s.file.errors d);
        kept = k;
      }

  pub end_found-Counted :
      (lines : List Text) (i : ℕ) (s : Scan) (m : Match) (o : Option OpenBlock)
      → lookup (block_key m) s.open_blocks ≡ o
      → IsNamed m
      → All IsKept s.open_blocks
      → Counted p 0 (bit (marks_at p (i + 1) m)) s (end_found u lines i s m o)
  unfolding end_found end_no_begin_error close_block empty_block_error error txt text_dec lookup
  end_found-Counted lines i s m none e h k =
      let d =
        end_no_begin_error s.file.path (captured id_group m.groups) (captured inst_group m.groups)
          (i + 1) in
      record {
        begins = omega (arith, count_by-concat (reports p is_dup_begin) s.file.errors d);
        ends = omega (arith, count_by-concat (reports p is_end_no_begin) s.file.errors d);
        others = omega (arith, count_by-concat (reports p is_begin_no_end) s.file.errors d);
        kept = k;
      }
  end_found-Counted lines i s m (some o) e h k =
      let by_key = entries-lookup IsKept (block_key m) s.open_blocks o k e in
      let same = block_key-names m by_key.by h by_key.named by_key.key in
      let id_is : o.id ≡ captured id_group m.groups = by_key.same_id ∙ sym same.0 in
      let inst_is : o.inst ≡ captured inst_group m.groups = by_key.same_inst ∙ sym same.1 in
      let d = empty_block_error s.file.path o (i + 1) in
      let b : BlockMarker = record {
        id = o.id;
        phase = o.phase;
        inst = o.inst;
        start_line = o.line;
        end_line = i + 1;
        content = slice o.line i lines;
      } in
      let passes : ends_at p b ≡ marks_at p (i + 1) m = rw (id_is, inst_is) refl in
      record {
        begins = ground (
          arith,
          count_by-concat (starts_at p) s.file.block_markers b,
          count-erase (opens_at p) (block_key m) s.open_blocks o e,
          count_by-concat (reports p is_dup_begin) s.file.errors d,
        );
        ends = ground (
          arith,
          count_by-concat (ends_at p) s.file.block_markers b,
          count_by-concat (reports p is_end_no_begin) s.file.errors d,
        );
        others = ground (arith, count_by-concat (reports p is_begin_no_end) s.file.errors d);
        kept = entries-erase IsKept (block_key m) s.open_blocks k;
      }
