-- ===== src/Toc/Build.antt =====
-- `build_toc` of toc.py.
use katapult.Base.{
  ℕ, suc, zero, ◌+◌, ◌-◌, ◌*◌, Bool, true, false, List, [], ◌∷◌, leb, if◌then◌else◌,
}
use katapult.Base.Lists.{length}
use katapult.Base.Text.{Text, txt, join, decimal, fstring}
use katapult.Base.Dict.{Dict}
use katapult.Base.Unicode.{Unicode}
use katapult.Toc.Slug.{strip_links, unique_slug}
use katapult.Toc.Headings.{Heading}

-- `" " * n`
unfoldable pub spaces : ℕ → Text
spaces zero = []
spaces (suc n) = b' ' ∷ spaces n

-- `min(h[0] for h in headings)` of a list with a first heading.
unfoldable pub min_level : ℕ → List Heading → ℕ
min_level n [] = n
min_level n (h ∷ hs) = min_level (if leb n h.level then n else h.level) hs

-- `[{disp}](#{slug})`
abbrev link_to : Text → Text → List Text
unfolding txt
link_to title slug = txt "[" ∷ strip_links title ∷ txt "](#" ∷ slug ∷ txt ")" ∷ []

unfoldable pub bullet : ℕ → Text → Text → Text
unfolding spaces strip_links txt
bullet n title slug = fstring (spaces n ∷ txt "- " ∷ link_to title slug)

-- The stack without the entries at the level or below it; the last entry comes first.
unfoldable pub pop_parents : ℕ → List ℕ → List ℕ
pop_parents level [] = []
pop_parents level (l ∷ stack) =
    let rest = pop_parents level stack in if leb level l then rest else l ∷ stack

unfoldable pub numbered_entry : ℕ → ℕ → ℕ → Text → Text → Text
unfolding bullet decimal
numbered_entry indent_size top_num zero title slug =
    fstring (decimal top_num ∷ txt ". " ∷ link_to title slug)
numbered_entry indent_size top_num (suc depth) title slug =
    bullet (indent_size * suc depth) title slug

module _ (u : Unicode) (indent_size : ℕ) where
  -- The numbered style: a stack of parents, and the number of the last entry at the top.
  unfoldable pub numbered_lines : List ℕ → ℕ → Dict ℕ → List Heading → List Text
  unfolding numbered_entry pop_parents unique_slug
  numbered_lines stack top_num counts [] = []
  numbered_lines stack top_num counts (h ∷ hs) =
      let (slug, counts') = unique_slug u h.title counts in
      let parents = pop_parents h.level stack in
      let depth = length parents in
      let top = if leb depth 0 then top_num + 1 else top_num in
      numbered_entry indent_size top depth h.title slug
      ∷ numbered_lines (h.level ∷ parents) top counts' hs

  -- The flat style.
  unfoldable pub bullet_lines : ℕ → Dict ℕ → List Heading → List Text
  unfolding bullet unique_slug
  bullet_lines least counts [] = []
  bullet_lines least counts (h ∷ hs) =
      let (slug, counts') = unique_slug u h.title counts in
      bullet (indent_size * (h.level - least)) h.title slug ∷ bullet_lines least counts' hs

  unfoldable pub build_toc : Bool → List Heading → Text
  unfolding numbered_lines bullet_lines min_level join txt
  build_toc numbered [] = []
  build_toc true (h ∷ hs) = join (txt "\n") (numbered_lines [] 0 [] (h ∷ hs))
  build_toc false (h ∷ hs) = join (txt "\n") (bullet_lines (min_level h.level hs) [] (h ∷ hs))
