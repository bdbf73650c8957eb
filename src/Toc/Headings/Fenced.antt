-- ===== src/Toc/Headings/Fenced.antt =====
-- What `parse_headings` finds.
use katapult.Base.{
  ℕ, ◌≤◌, ◌≡◌, refl, ap, ◌∙◌, Bool, true, false, ◌&&◌, List, [], ◌∷◌, ◌++◌, Option, none, some,
  arith, inl, inr, Bool-cases,
}
use katapult.Base.Lists.{All, All-append}
use katapult.Base.Text.{Text, contains}
use katapult.Base.Unicode.{Unicode}
use katapult.Toc.Fence.{Fence, fence_update, is_visible}
use katapult.Toc.Headings.{
  Heading, HeadingOptions, is_listed, visit_heading, headings_loop, parse_headings,
}
use katapult.Toc.Headings.{read_heading, toc_heading_names}

module _ (u : Unicode) (o : HeadingOptions) where
  -- The level lies in the range, and with `skip_toc_heading` the text names no table of contents.
  pub record IsWanted (h : Heading) : Type 0 where
    pub least : o.min_level ≤ h.level
    pub most : h.level ≤ o.max_level
    pub named : (o.skip_toc_heading && contains (u.lower h.title) toc_heading_names) ≡ false

  is_listed-IsWanted : (h : Heading) → is_listed u o h ≡ true → IsWanted h
  unfolding is_listed
  is_listed-IsWanted h e = ground arith

  visit_heading-IsWanted :
      (skipped : Bool) (h : Option Heading) → All IsWanted (visit_heading u o skipped h).0
  unfolding visit_heading
  visit_heading-IsWanted skipped none = tt
  visit_heading-IsWanted skipped (some h) = ground (arith, is_listed-IsWanted h)

  headings_loop-IsWanted :
      (fence : Fence) (skipped : Bool) (lines : List Text)
      → All IsWanted (headings_loop u o fence skipped lines)
  unfolding headings_loop
  headings_loop-IsWanted fence skipped [] = tt
  headings_loop-IsWanted fence skipped (line ∷ lines) = elim (Bool-cases (is_visible line fence)) [
    | inl e ↦ rw e (
        All-append IsWanted _ _ (visit_heading-IsWanted skipped (read_heading line)) (
          headings_loop-IsWanted (fence_update line fence)
            (visit_heading u o skipped (read_heading line)).1 lines))
    | inr e ↦ rw e (headings_loop-IsWanted (fence_update line fence) skipped lines)
  ]

  -- Every heading found has a level in the range of the options and, where the headings of a table
  -- of contents are to be skipped, another name than those.
  pub parse_headings-IsWanted : (lines : List Text) → All IsWanted (parse_headings u o lines)
  unfolding parse_headings
  parse_headings-IsWanted lines = headings_loop-IsWanted none false lines

  hidden_line :
      (fence : Fence) (skipped : Bool) (line : Text) (lines : List Text)
      → is_visible line fence ≡ false
      → headings_loop u o fence skipped (line ∷ lines)
        ≡ headings_loop u o (fence_update line fence) skipped lines
  unfolding headings_loop
  hidden_line fence skipped line lines e = rw e

  inside-hidden : (line : Text) (f : ℕ × ℕ) → is_visible line (some f) ≡ false
  unfolding is_visible
  inside-hidden line f = ground arith

  opener-hidden :
      (line : Text) (f : ℕ × ℕ) → fence_update line none ≡ some f → is_visible line none ≡ false
  unfolding is_visible
  opener-hidden line f e = rw e

  headings_loop-body :
      (f : ℕ × ℕ) (skipped : Bool) (body rest : List Text)
      → All (λ l. fence_update l (some f) ≡ some f) body
      → headings_loop u o (some f) skipped (body ++ rest) ≡ headings_loop u o (some f) skipped rest
  headings_loop-body f skipped [] rest h = refl
  headings_loop-body f skipped (l ∷ body) rest h =
      hidden_line (some f) skipped l (body ++ rest) (inside-hidden l f)
      ∙ ap (λ (g : Fence). headings_loop u o g skipped (body ++ rest)) h.0
      ∙ headings_loop-body f skipped body rest h.1

  headings_loop-fenced :
      (skipped : Bool) (opener closer : Text) (body rest : List Text) (f : ℕ × ℕ)
      → fence_update opener none ≡ some f
      → All (λ l. fence_update l (some f) ≡ some f) body
      → fence_update closer (some f) ≡ none
      → headings_loop u o none skipped (opener ∷ (body ++ closer ∷ rest))
        ≡ headings_loop u o none skipped rest
  headings_loop-fenced skipped opener closer body rest f eo eb ec =
      hidden_line none skipped opener (body ++ closer ∷ rest) (opener-hidden opener f eo)
      ∙ ap (λ (g : Fence). headings_loop u o g skipped (body ++ closer ∷ rest)) eo
      ∙ headings_loop-body f skipped body (closer ∷ rest) eb
      ∙ hidden_line (some f) skipped closer rest (inside-hidden closer f)
      ∙ ap (λ (g : Fence). headings_loop u o g skipped rest) ec

  -- If the first line opens a fence, the lines behind it leave it open and the next one closes it,
  -- these lines add no heading: the lines behind them give the same headings alone.
  pub parse_headings-fenced :
      (opener closer : Text) (body rest : List Text) (f : ℕ × ℕ)
      → fence_update opener none ≡ some f
      → All (λ l. fence_update l (some f) ≡ some f) body
      → fence_update closer (some f) ≡ none
      → parse_headings u o (opener ∷ (body ++ closer ∷ rest)) ≡ parse_headings u o rest
  unfolding parse_headings
  parse_headings-fenced opener closer body rest f =
      headings_loop-fenced false opener closer body rest f
