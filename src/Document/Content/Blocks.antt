-- ===== src/Document/Content/Blocks.antt =====
-- The searches of `get_content_scoped`: what they return between hash fences is an excerpt.
use katapult.Base.{
  ℕ, suc, ◌+◌, ◌-◌, ◌≤◌, ◌<◌, ◌≡◌, refl, Bool, true, false, List, [], ◌∷◌, Option, none, some,
  arith, leb, if◌then◌else◌, Bool-cases, inl, inr,
}
use katapult.Base.Lists.{All, All-map, length, slice}
use katapult.Base.Slices.{length-slice}
use katapult.Base.Text.{Text, text_eq}
use katapult.Regex.{Match, match_start}
use katapult.Document.Patterns.{heading_re}
use katapult.Document.Content.Names.{normalize_cpt_id_from_line}
use katapult.Document.Content.Emit.{Scoped, cut}
use katapult.Document.Content.Excerpt.{IsExcerpt, cut-IsExcerpt}
use katapult.Document.Content.Search.{
  is_hash_fence, fence_idxs, pairs, at_boundary, boundaries, Search, or_else, in_segments,
  in_blocks, stops_at, next_heading,
}

pub fence_idxs-below :
    (i : ℕ) (lines : List Text) → All (λ j. j < i + length lines) (fence_idxs i lines)
unfolding fence_idxs
fence_idxs-below i [] = tt
fence_idxs-below i (ln ∷ lines) =
    let rest : All (λ j. j < i + suc (length lines)) (fence_idxs (i + 1) lines) =
      All-map (λ j. j < i + suc (length lines)) (λ j (h : j < i + 1 + length lines). omega arith) _
        (fence_idxs-below (i + 1) lines) in
    elim (Bool-cases (is_hash_fence ln)) [ inl e ↦ rw e (omega arith, rest) | inr e ↦ rw e rest ]

pub pairs-below : (n : ℕ) (idxs : List ℕ) → All (λ j. j < n) idxs → All (λ p. p.1 < n) (pairs idxs)
pairs-below n [] h = tt
pairs-below n (a ∷ []) h = tt
pairs-below n (a ∷ b ∷ idxs) h = (h.1.0, pairs-below n idxs h.1.1)

boundary-below :
    (i n : ℕ) (o : Option Text) (rest : List (ℕ × Text))
    → i < n
    → All (λ b. b.0 < n) rest
    → All (λ b. b.0 < n) (at_boundary i o rest)
boundary-below i n none rest l h = h
boundary-below i n (some id) rest l h = (l, h)

boundaries-below :
    (i : ℕ) (inner : List Text) → All (λ b. b.0 < i + length inner) (boundaries i inner)
unfolding boundaries
boundaries-below i [] = tt
boundaries-below i (ln ∷ inner) =
    boundary-below i (i + suc (length inner)) (normalize_cpt_id_from_line ln) _ (omega arith) (
      All-map (λ b. b.0 < i + suc (length inner))
        (λ b (h : b.0 < i + 1 + length inner). omega arith) _ (boundaries-below (i + 1) inner))

pub stops_at-below :
    (level j n k : ℕ) (o : Option Match) (later : Option ℕ)
    → j < n
    → (later ≡ some k → k < n)
    → stops_at level o j later ≡ some k
    → k < n
stops_at-below level j n k none later l h e = h e
stops_at-below level j n k (some m) later l h e = ground (arith, h)

pub next_heading-below :
    (level j : ℕ) (rest : List Text) (k : ℕ)
    → next_heading level j rest ≡ some k
    → k < j + length rest
unfolding next_heading
next_heading-below level j [] k h = cc
next_heading-below level j (ln ∷ rest) k h =
    stops_at-below level j (j + suc (length rest)) k (match_start heading_re ln)
      (next_heading level (j + 1) rest) (omega arith)
      (λ e. omega (arith, next_heading-below level (j + 1) rest k e)) h

module _ (lines : List Text) where
  -- The search goes on, or returns nothing, or an excerpt.
  abbrev pub IsGood : Search → Type 0
  IsGood none = Unit
  IsGood (some none) = Unit
  IsGood (some (some r)) = IsExcerpt lines r

  pub or_else-IsGood : (a b : Search) → IsGood a → IsGood b → IsGood (or_else a b)
  or_else-IsGood none b g h = h
  or_else-IsGood (some r) b g h = g

  pub if-IsGood : (c : Bool) (a b : Search) → IsGood a → IsGood b → IsGood (if c then a else b)
  if-IsGood true a b g h = g
  if-IsGood false a b g h = h

  pub cut-IsGood : (start end : ℕ) → end < length lines → IsGood (some (cut lines start end))
  cut-IsGood start end h = at (cut lines start end) refl
    where
      at : (o : Option Scoped) → cut lines start end ≡ o → IsGood (some o)
      at none e = tt
      at (some r) e = cut-IsExcerpt lines start end r h e

  module _ (wanted : Text) where
    in_segments-IsGood :
        (start_i end_i : ℕ) (bs : List (ℕ × Text))
        → end_i < length lines
        → All (λ b. start_i + 1 + b.0 ≤ end_i) bs
        → IsGood (in_segments lines wanted start_i end_i bs)
    unfolding in_segments
    in_segments-IsGood start_i end_i [] l h = tt
    in_segments-IsGood start_i end_i ((b_rel, id) ∷ []) l h =
        if-IsGood (text_eq id wanted) _ none (cut-IsGood _ (end_i - 1) (omega arith)) tt
    in_segments-IsGood start_i end_i ((b_rel, id) ∷ (next, id') ∷ bs) l h =
        let below = h.1.0 in
        if-IsGood (text_eq id wanted) _ _
          (cut-IsGood (start_i + 1 + b_rel + 1) ((start_i + 1 + next) - 1) (omega arith))
          (in_segments-IsGood start_i end_i ((next, id') ∷ bs) l h.1)

    pub in_blocks-IsGood :
        (blocks : List (ℕ × ℕ))
        → All (λ p. p.1 < length lines) blocks
        → IsGood (in_blocks lines wanted blocks)
    unfolding in_blocks
    in_blocks-IsGood [] h = tt
    in_blocks-IsGood ((start_i, end_i) ∷ blocks) h =
        let l = h.0 in
        let len = length-slice (start_i + 1) end_i lines (omega arith) in
        let later = in_blocks-IsGood blocks h.1 in
        elim (Bool-cases (leb end_i (start_i + 1))) [
          | inl e ↦ rw e later
          | inr e ↦ rw e (
              or_else-IsGood _ _
                (in_segments-IsGood start_i end_i _ l (
                  All-map (λ b. start_i + 1 + b.0 ≤ end_i)
                    (λ b (k : b.0 < 0 + length (slice (start_i + 1) end_i lines)). ground arith) _
                    (boundaries-below 0 (slice (start_i + 1) end_i lines))))
                later)
        ]
