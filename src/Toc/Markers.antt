-- ===== src/Toc/Markers.antt =====
-- `insert_toc_markers` of toc.py: the table between HTML markers.
use katapult.Base.{ℕ, ◌+◌, Bool, false, List, [], ◌∷◌, ◌++◌, Option, none, some, ◌==◌}
use katapult.Base.Lists.{take, drop}
use katapult.Base.Text.{Text, txt, split_on, join}
use katapult.Base.Unicode.{Unicode}
use katapult.Toc.Headings.{Heading, HeadingOptions, read_heading, parse_headings}
use katapult.Toc.Build.{build_toc}
use katapult.Toc.Lines.{toc_marker_start, toc_marker_end, find_markers, find_visible, after_blank}

abbrev is_level_one : Option Heading → Bool
is_level_one none = false
is_level_one (some h) = h.level == 1

abbrev behind_h1 : List Text → Option ℕ → ℕ
behind_h1 lines none = 0
behind_h1 lines (some i) = after_blank lines (i + 1)

-- Where a new block goes: behind the first H1 and the blank lines that follow it, or at the top.
unfoldable pub insert_pos : List Text → ℕ
unfolding find_visible read_heading after_blank
insert_pos lines = behind_h1 lines (find_visible (λ l. is_level_one (read_heading l)) 0 none lines)

-- The new lines, from the markers that were found.
unfoldable pub place_markers : List Text → Text → Option (ℕ × ℕ) → List Text
unfolding insert_pos toc_marker_start toc_marker_end
place_markers lines toc (some (s, e)) = take (s + 1) lines ++ ([] ∷ toc ∷ [] ∷ drop e lines)
place_markers lines toc none =
    let pos = insert_pos lines in
    take pos lines ++ ([] ∷ toc_marker_start ∷ [] ∷ toc ∷ [] ∷ toc_marker_end ∷ [] ∷ drop pos lines)

-- The options of its call of `parse_headings`.
abbrev pub marker_options : ℕ → HeadingOptions
marker_options max_level = record {
  min_level = 2;
  max_level = max_level;
  skip_first = false;
  skip_toc_heading = false;
}

module _ (u : Unicode) (max_level indent_size : ℕ) where
  -- What it makes of the headings that were found.
  unfoldable pub marked : Text → List Heading → Text
  unfolding place_markers build_toc find_markers split_on join txt
  marked content [] = content
  marked content (h ∷ hs) =
      let lines = split_on 10 content in
      let toc = build_toc u indent_size false (h ∷ hs) in
      join (txt "\n") (place_markers lines toc (find_markers 0 none lines))

  unfoldable pub insert_toc_markers : Text → Text
  unfolding marked parse_headings split_on
  insert_toc_markers content =
      marked content (parse_headings u (marker_options max_level) (split_on 10 content))
