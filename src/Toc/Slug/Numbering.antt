-- ===== src/Toc/Slug/Numbering.antt =====
-- The numbers of repeated slugs.
use katapult.Base.{
  ℕ, zero, suc, ◌+◌, ◌≡◌, refl, ap, ◌∙◌, List, [], ◌∷◌, ◌++◌, Option, none, some, arith,
  if◌then◌else◌,
}
use katapult.Base.Text.{Text, txt, decimal, text_eq, text_dec}
use katapult.Base.Dict.{Dict, lookup, insert, lookup-insert}
use katapult.Base.Unicode.{Unicode}
use katapult.Toc.Slug.{github_anchor, numbered_slug, unique_slug}

-- How often the anchor occurs among those of the texts.
unfoldable pub occurrences : Unicode → Text → List Text → ℕ
occurrences u a [] = 0
occurrences u a (t ∷ ts) = (if text_eq a (github_anchor u t) then 1 else 0) + occurrences u a ts

-- The slug of an anchor that has occurred so often.
unfoldable pub slug_after : Text → ℕ → Text
slug_after a zero = a
slug_after a (suc n) = a ++ (txt "-" ++ decimal (suc n))

module _ (u : Unicode) where
  -- The slugs of the texts, with the counts passed on, and the counts behind them.
  unfoldable pub slugs_onto : List Text → Dict ℕ → List Text × Dict ℕ
  unfolding unique_slug
  slugs_onto [] d = ([], d)
  slugs_onto (t ∷ ts) d =
      let (s, d') = unique_slug u t d in let (ss, last) = slugs_onto ts d' in (s ∷ ss, last)

  abbrev count_as : ℕ → Option ℕ
  count_as zero = none
  count_as (suc n) = some n

  -- The counts hold one less than the number of occurrences of each anchor that has occurred.
  abbrev Counted : Dict ℕ → List Text → Type 0
  Counted d earlier = (a : Text) → lookup a d ≡ count_as (occurrences u a earlier)

  numbered_lem :
      (a : Text) (d : Dict ℕ) (n : ℕ)
      → numbered_slug u a d (count_as n) ≡ (slug_after a n, insert a n d)
  unfolding numbered_slug slug_after
  numbered_lem a d zero = refl
  numbered_lem a d (suc n) = let e : n + 1 ≡ suc n = omega arith in rw e refl

  count_one_more : (n : ℕ) → count_as (1 + n) ≡ some n
  count_one_more n = let e : 1 + n ≡ suc n = omega arith in rw e refl

  count_no_more : (n : ℕ) → count_as (0 + n) ≡ count_as n
  count_no_more n = ap count_as (omega arith)

  insert-Counted :
      (t : Text) (d : Dict ℕ) (earlier : List Text)
      → Counted d earlier
      → let a = github_anchor u t in Counted (insert a (occurrences u a earlier) d) (t ∷ earlier)
  unfolding occurrences
  insert-Counted t d earlier h a = elim (text_dec a (github_anchor u t)) [
    | yes same ↦ ground (
      arith,
      lookup-insert a (github_anchor u t) (occurrences u (github_anchor u t) earlier) d,
      count_one_more (occurrences u a earlier),
    )
    | no differ ↦ ground (
      arith,
      lookup-insert a (github_anchor u t) (occurrences u (github_anchor u t) earlier) d,
      count_no_more (occurrences u a earlier),
      h a,
    )
  ]

  -- The slugs of texts that come behind earlier ones, by counting occurrences.
  unfoldable pub numbered_slugs : List Text → List Text → List Text
  unfolding occurrences slug_after
  numbered_slugs earlier [] = []
  numbered_slugs earlier (t ∷ ts) =
      let a = github_anchor u t in
      slug_after a (occurrences u a earlier) ∷ numbered_slugs (t ∷ earlier) ts

  slugs_onto-numbered :
      (ts earlier : List Text) (d : Dict ℕ)
      → Counted d earlier
      → (slugs_onto ts d).0 ≡ numbered_slugs earlier ts
  unfolding slugs_onto unique_slug numbered_slugs
  slugs_onto-numbered [] earlier d h = refl
  slugs_onto-numbered (t ∷ ts) earlier d h =
      let a = github_anchor u t in
      let step = ap (numbered_slug u a d) (h a) ∙ numbered_lem a d (occurrences u a earlier) in
      let later =
        slugs_onto-numbered ts (t ∷ earlier) (insert a (occurrences u a earlier) d)
          (insert-Counted t d earlier h) in
      ap (λ (r : Text × Dict ℕ). r.0 ∷ (slugs_onto ts r.1).0) step
      ∙ ap (λ (ss : List Text). slug_after a (occurrences u a earlier) ∷ ss) later

  -- The slug of each heading is its anchor, followed by `-n` where the anchor has occurred n times
  -- before.
  pub unique_slug-numbered : (ts : List Text) → (slugs_onto ts []).0 ≡ numbered_slugs [] ts
  unique_slug-numbered ts = slugs_onto-numbered ts [] [] (λ a. unfold lookup occurrences in refl)
