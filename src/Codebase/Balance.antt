-- ===== src/Codebase/Balance.antt =====
-- The balance of the markers of a file that `from_path` of codebase.py accepts.
use katapult.Base.{ℕ, ◌+◌, ◌≡◌, refl, Bool, true, List, [], ◌∷◌, some, arith, inl, inr, Bool-cases}
use katapult.Base.Lists.{length, is_nil}
use katapult.Base.Count.{count_by}
use katapult.Base.Text.{Text, splitlines}
use katapult.Base.Unicode.{Unicode}
use katapult.Issue.{FilePath, Issue}
use katapult.Codebase.Data.{CodeFile, code_file, block_begin_re, block_end_re}
use katapult.Regex.{Regex, finditer}
use katapult.Codebase.Pairing.{Test, tally, reports}
use katapult.Codebase.Paired.{parse_markers-paired}
use katapult.Codebase.Scan.{parse_markers}
use katapult.Codebase.Scan.{contents, from_path}
use katapult.Codebase.Accounting.{matches, is_dup_begin, is_end_no_begin, is_begin_no_end}

-- The test that all pass.
abbrev any : Test
any n id inst = true

count_true {ℓ} : {A : Type ℓ} (xs : List A) → count_by (λ (x : A). true) xs ≡ length xs
unfolding count_by
count_true [] = refl
count_true (x ∷ xs) = omega (arith, count_true xs)

tally-true : (r : Regex) (i : ℕ) (lines : List Text) → tally any r i lines ≡ matches r lines
unfolding tally matches
tally-true r i [] = refl
tally-true r i (line ∷ lines) =
    omega (arith, count_true (finditer r line), tally-true r (i + 1) lines)

no_errors : (p : Issue → Bool) (es : List Issue) → is_nil es ≡ true → count_by p es ≡ 0
unfolding count_by
no_errors p [] h = refl
no_errors p (e ∷ es) h = cc

module _ (u : Unicode) where
  -- A file that `from_path` accepts has as many begin markers as end markers, and a block for each.
  pub from_path-balanced :
      (t : Text) (path : FilePath) (f : CodeFile)
      → (from_path u (contents t) path).0 ≡ some f
      → (matches (block_begin_re u) (splitlines t) ≡ length f.block_markers)
        × (matches (block_end_re u) (splitlines t) ≡ length f.block_markers)
  unfolding from_path
  from_path-balanced t path f h =
      elim (Bool-cases (is_nil (parse_markers u (splitlines t) (code_file path)).errors)) [
        | inl clean ↦
            let g = parse_markers u (splitlines t) (code_file path) in
            let b = parse_markers-paired u any (splitlines t) path in
            let same : length g.block_markers ≡ length f.block_markers = ground arith in
            omega (
              arith,
              no_errors (reports any is_dup_begin) g.errors clean,
              no_errors (reports any is_end_no_begin) g.errors clean,
              no_errors (reports any is_begin_no_end) g.errors clean,
              tally-true (block_begin_re u) 0 (splitlines t),
              tally-true (block_end_re u) 0 (splitlines t),
              count_true g.block_markers,
            )
        | inr dirty ↦ absurd (ground arith)
      ]
