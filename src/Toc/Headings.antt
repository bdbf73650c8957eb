-- ===== src/Toc/Headings.antt =====
-- `parse_headings` and `_find_heading_line` of toc.py.
pub mod Fenced
use katapult.Base.{
  ℕ, ◌+◌, Bool, true, false, not, ◌&&◌, ◌||◌, List, [], ◌∷◌, ◌++◌, Option, none, some, ◌==◌, ltb,
  if◌then◌else◌,
}
use katapult.Base.Lists.{length}
use katapult.Base.Text.{Text, txt, strip, is_space, contains, text_eq, text_dec}
use katapult.Base.Unicode.{Unicode}
use katapult.Regex.{
  Regex, chr, lit, seq, group, plus, star, plus_lazy, between, eos, captured, match_start, Match,
}
use katapult.Toc.Fence.{Fence, fence_update, is_visible}

-- `_HEADING_RE`: `^(#{1,6})\s+(.+?)\s*$`
unfoldable pub heading_re : Regex
unfolding is_space
heading_re =
    seq (group 1 (between 1 6 (λ c. c == b'#'))) (
      seq (plus is_space)
        (seq (group 2 (plus_lazy (λ c. not (c == 10)))) (seq (star is_space) eos)))

pub record Heading : Type 0 where
  pub level : ℕ
  pub title : Text

abbrev heading_of : Option Match → Option Heading
heading_of none = none
heading_of (some m) =
    some (record { level = length (captured 1 m.groups); title = strip (captured 2 m.groups) })

-- The level and the stripped text of a heading line.
unfoldable pub read_heading : Text → Option Heading
unfolding heading_re match_start strip
read_heading line = heading_of (match_start heading_re line)

abbrev has_title : Text → Option Heading → Bool
has_title title none = false
has_title title (some h) = text_eq h.title title

pub record HeadingOptions : Type 0 where
  pub min_level : ℕ
  pub max_level : ℕ
  pub skip_first : Bool
  pub skip_toc_heading : Bool

-- `_TOC_HEADING_NAMES`
unfoldable pub toc_heading_names : List Text
unfolding txt
toc_heading_names = txt "table of contents" ∷ txt "toc" ∷ []

module _ (u : Unicode) (o : HeadingOptions) where
  -- The tests behind the one for the first heading.
  unfoldable pub is_listed : Heading → Bool
  unfolding toc_heading_names text_dec
  is_listed h =
      not (ltb h.level o.min_level || ltb o.max_level h.level)
      && not (o.skip_toc_heading && contains (u.lower h.title) toc_heading_names)

  -- What a line that is looked at adds, and whether the first heading is skipped behind it.
  unfoldable pub visit_heading : Bool → Option Heading → List Heading × Bool
  unfolding is_listed
  visit_heading skipped none = ([], skipped)
  visit_heading skipped (some h) =
      if o.skip_first && not skipped
      then ([], true)
      else ((if is_listed h then h ∷ [] else []), skipped)

  -- The loop, with the fence and whether the first heading was skipped. A line that is looked at
  -- leaves the fence as it is.
  unfoldable pub headings_loop : Fence → Bool → List Text → List Heading
  unfolding is_visible visit_heading read_heading
  headings_loop fence skipped [] = []
  headings_loop fence skipped (line ∷ lines) =
      let (found, skipped') =
        if is_visible line fence
        then visit_heading skipped (read_heading line)
        else ([], skipped) in
      found ++ headings_loop (fence_update line fence) skipped' lines

  unfoldable pub parse_headings : List Text → List Heading
  unfolding headings_loop
  parse_headings lines = headings_loop none false lines

-- `_find_heading_line`: the number of the first heading line of that text, or 1.
unfoldable pub find_heading_from : ℕ → Fence → List Text → Text → ℕ
unfolding is_visible read_heading text_dec
find_heading_from n fence [] title = 1
find_heading_from n fence (line ∷ lines) title =
    let rest = find_heading_from (n + 1) (fence_update line fence) lines title in
    if is_visible line fence && has_title title (read_heading line) then n else rest

unfoldable pub find_heading_line : List Text → Text → ℕ
unfolding find_heading_from
find_heading_line lines title = find_heading_from 1 none lines title
