-- ===== src/Document/Content/Ranges.antt =====
-- Where the text of `get_content_scoped` stands in the artifact.
use katapult.Base.{
  ℕ, suc, ◌+◌, ◌<◌, ◌≡◌, refl, subst, Bool, true, false, not, ◌&&◌, List, [], ◌∷◌, Option, none,
  some, arith, if◌then◌else◌,
}
use katapult.Base.Lists.{All-map, length, is_nil}
use katapult.Base.Text.{Text, strip, text_eq}
use katapult.Base.Unicode.{Unicode, is_some}
use katapult.Regex.{Match, match_start, captured}
use katapult.Document.Patterns.{heading_re, id_def_re}
use katapult.Document.Ids.{is_fence}
use katapult.Document.Outline.{level_of}
use katapult.Document.Steps.{parent_of}
use katapult.Document.Content.Emit.{Scoped}
use katapult.Document.Content.Excerpt.{IsExcerpt}
use katapult.Document.Content.Blocks.{
  fence_idxs-below, pairs-below, stops_at-below, next_heading-below, IsGood, or_else-IsGood,
  if-IsGood, cut-IsGood, in_blocks-IsGood,
}
use katapult.Document.Content.Search.{
  fence_idxs, pairs, Search, or_else, in_blocks, is_titled, last_line, next_heading, under_heading,
  in_headings, stops_here, next_stop, cutoff_of, under_definition, level_after, in_definitions,
  found, get_content_scoped,
}

last_line-below :
    (lines : List Text) (o : Option ℕ)
    → 0 < length lines
    → ((k : ℕ) → o ≡ some k → k < length lines)
    → last_line lines o < length lines
last_line-below lines none l h = omega arith
last_line-below lines (some j) l h = let k = h j refl in omega arith

module _ (lines : List Text) (wanted : Text) where
  under_heading-IsGood :
      (idx : ℕ) (rest : List Text) (o : Option Match) (later : Search)
      → idx + suc (length rest) ≡ length lines
      → IsGood lines later
      → IsGood lines (under_heading lines wanted idx rest o later)
  unfolding under_heading
  under_heading-IsGood idx rest none later e g = g
  under_heading-IsGood idx rest (some m) later e g =
      if-IsGood lines (is_titled lines wanted (captured 2 m.groups)) _ later
        (cut-IsGood lines (idx + 1) _ (
          last_line-below lines (next_heading (level_of m) (idx + 1) rest) (omega arith)
            (λ k s. omega (arith, next_heading-below (level_of m) (idx + 1) rest k s))))
        g

  in_headings-IsGood :
      (idx : ℕ) (rest : List Text)
      → idx + length rest ≡ length lines
      → IsGood lines (in_headings lines wanted idx rest)
  unfolding in_headings
  in_headings-IsGood idx [] e = tt
  in_headings-IsGood idx (ln ∷ rest) e =
      under_heading-IsGood idx rest (match_start heading_re ln) _ e
        (in_headings-IsGood (idx + 1) rest (omega arith))

if-below :
    (n k : ℕ) (b : Bool) (x y : Option ℕ)
    → (x ≡ some k → k < n)
    → (y ≡ some k → k < n)
    → (if b then x else y) ≡ some k
    → k < n
if-below n k true x y g h e = g e
if-below n k false x y g h e = h e

module _ (u : Unicode) where
  stops_here-below :
      (cutoff j n k : ℕ) (ln : Text) (later : Option ℕ)
      → j < n
      → (later ≡ some k → k < n)
      → stops_here u cutoff j ln later ≡ some k
      → k < n
  unfolding stops_here
  stops_here-below cutoff j n k ln later l h e =
      if-below n k (is_some (match_start (id_def_re u) (strip ln))) (some j) _ (λ s. ground arith)
        (stops_at-below cutoff j n k (match_start heading_re ln) later l h) e

  next_stop-below :
      (cutoff : ℕ) (f : Bool) (j : ℕ) (rest : List Text) (k : ℕ)
      → next_stop u cutoff f j rest ≡ some k
      → k < j + length rest
  unfolding next_stop
  next_stop-below cutoff f j [] k e = cc
  next_stop-below cutoff f j (ln ∷ rest) k e =
      let later = next_stop-below cutoff (if is_fence ln then not f else f) (j + 1) rest k in
      let n = j + suc (length rest) in
      let far : next_stop u cutoff (if is_fence ln then not f else f) (j + 1) rest ≡ some k
          → k < n =
        λ s. omega (arith, later s) in
      if-below n k (is_fence ln) _ _ far
        (if-below n k f _ _ far (stops_here-below cutoff j n k ln _ (omega arith) far)) e

  module _ (lines : List Text) (wanted : Text) where
    under_definition-IsGood :
        (idx : ℕ) (level : Option ℕ) (rest : List Text) (o : Option Match) (later : Search)
        → idx + suc (length rest) ≡ length lines
        → IsGood lines later
        → IsGood lines (under_definition u lines wanted idx level rest o later)
    unfolding under_definition
    under_definition-IsGood idx level rest none later e g = g
    under_definition-IsGood idx level rest (some m) later e g =
        if-IsGood lines (not (is_nil (parent_of m)) && text_eq (parent_of m) wanted) _ later
          (cut-IsGood lines (idx + 1) _ (
            last_line-below lines (next_stop u (cutoff_of level) false (idx + 1) rest) (omega arith)
              (λ k s. omega (arith, next_stop-below (cutoff_of level) false (idx + 1) rest k s))))
          g

    in_definitions-IsGood :
        (f : Bool) (level : Option ℕ) (idx : ℕ) (rest : List Text)
        → idx + length rest ≡ length lines
        → IsGood lines (in_definitions u lines wanted f level idx rest)
    unfolding in_definitions
    in_definitions-IsGood f level idx [] e = tt
    in_definitions-IsGood f level idx (ln ∷ rest) e =
        let heading = match_start heading_re ln in
        let level' =
          if is_fence ln then level else if f then level else level_after level heading in
        let later =
          in_definitions-IsGood (if is_fence ln then not f else f) level' (idx + 1) rest
            (omega arith) in
        if-IsGood lines (is_fence ln) _ _ later (
          if-IsGood lines f _ _ later (
            if-IsGood lines (is_some heading) _ _ later (
              under_definition-IsGood idx level rest (match_start (id_def_re u) (strip ln)) _ e
                later)))

  found-IsGood :
      (lines : List Text) (s : Search) (r : Scoped)
      → IsGood lines s
      → found s ≡ some r
      → IsExcerpt lines r
  found-IsGood lines (some (some q)) r g e = subst (IsExcerpt lines) (ground arith) g
  found-IsGood lines (some none) r g e = cc
  found-IsGood lines none r g e = cc

  -- What is returned is the text of some of the artifact's lines, by their numbers from 1: the first is not
  -- behind the last, both are numbers of lines, and the text is not empty.
  pub get_content_scoped-IsExcerpt :
      (lines : List Text) (id_value : Text) (r : Scoped)
      → get_content_scoped u (some lines) id_value ≡ some r
      → IsExcerpt lines r
  unfolding get_content_scoped
  get_content_scoped-IsExcerpt lines id_value r e =
      let wanted = strip id_value in
      found-IsGood lines
        (or_else (in_blocks lines wanted (pairs (fence_idxs 0 lines))) (
          or_else (in_headings lines wanted 0 lines)
            (in_definitions u lines wanted false none 0 lines)))
        r
        (or_else-IsGood lines _ _
          (in_blocks-IsGood lines wanted (pairs (fence_idxs 0 lines)) (
            pairs-below (length lines) _ (
              All-map (λ j. j < length lines) (λ j (h : j < 0 + length lines). omega arith) _
                (fence_idxs-below 0 lines))))
          (or_else-IsGood lines _ _ (in_headings-IsGood lines wanted 0 lines (omega arith))
            (in_definitions-IsGood lines wanted false none 0 lines (omega arith))))
        e
