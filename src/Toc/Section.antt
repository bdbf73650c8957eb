-- ===== src/Toc/Section.antt =====
-- `insert_toc_heading` and `_strip_manual_toc` of toc.py: the section `## Table of Contents`.
use katapult.Base.{
  ℕ, suc, ◌+◌, Bool, true, false, not, ◌&&◌, ◌||◌, List, [], ◌∷◌, ◌++◌, Option, none, some, ◌==◌,
  if◌then◌else◌,
}
use katapult.Base.Lists.{length, is_nil, take, drop}
use katapult.Base.Text.{
  Text, txt, strip, rstrip_by, starts_with, split_on, join, fstring, text_eq, text_dec,
}
use katapult.Base.Unicode.{Unicode}
use katapult.Toc.Headings.{Heading, HeadingOptions, parse_headings}
use katapult.Toc.Build.{build_toc}
use katapult.Toc.Lines.{is_toc_heading, is_any_heading, is_separator, find_visible, or_end}
use katapult.Toc.Lines.{next_heading_or_separator, after_blank, before_blank, toc_marker_start}

-- `f"{before}\n\n{toc_section}\n\n{after}"`
abbrev around : Text → Text → Text → Text
unfolding txt
around before toc after = fstring (before ∷ txt "\n\n" ∷ toc ∷ txt "\n\n" ∷ after ∷ [])

unfoldable pub join_lines : List Text → Text
unfolding join txt
join_lines lines = join (txt "\n") lines

-- The content with the lines from the heading at `i` up to the next one replaced.
unfoldable pub replace_section : List Text → Text → ℕ → Text
unfolding next_heading_or_separator after_blank before_blank join_lines txt
replace_section lines toc i =
    let end = or_end (next_heading_or_separator lines (i + 1)) lines in
    around (join_lines (take (before_blank lines i) lines)) toc
      (join_lines (drop (after_blank lines end) lines))

-- The first separator from the index on, fences or not.
unfoldable pub find_separator : ℕ → List Text → Option ℕ
unfolding is_separator
find_separator i [] = none
find_separator i (line ∷ lines) =
    let rest = find_separator (i + 1) lines in if is_separator line then some i else rest

abbrev closing : Option ℕ → List Text → ℕ
closing none lines = length lines
closing (some i) lines = i + 1

-- The first line behind the YAML front matter.
unfoldable pub after_front_matter : List Text → ℕ
unfolding find_separator
after_front_matter [] = 0
after_front_matter (line ∷ lines) =
    if is_separator line then closing (find_separator 1 lines) (line ∷ lines) else 0

-- The lines of metadata at the start.
unfoldable pub metadata_run : List Text → ℕ
unfolding strip starts_with txt
metadata_run [] = 0
metadata_run (line ∷ lines) =
    let rest = metadata_run lines in
    let s = strip line in
    if starts_with s (txt "**") || starts_with s (txt "- ") || is_nil s then suc rest else 0

-- The content cut at a line, with the section between the halves.
unfoldable pub insert_at : List Text → Text → ℕ → Text
unfolding join_lines rstrip_by txt
insert_at lines toc j =
    around (rstrip_by (λ c. c == 10) (join_lines (take j lines))) toc (join_lines (drop j lines))

-- Behind the first heading and its metadata, or at the top.
unfoldable pub insert_behind_heading : Text → List Text → Text → Option ℕ → Text
unfolding insert_at metadata_run txt
insert_behind_heading content lines toc none = fstring (toc ∷ txt "\n\n" ∷ content ∷ [])
insert_behind_heading content lines toc (some j) =
    insert_at lines toc (j + 1 + metadata_run (drop (j + 1) lines))

unfoldable pub insert_section : Text → List Text → Text → ℕ → Option ℕ → Text
unfolding insert_at insert_behind_heading find_visible is_any_heading
insert_section content lines toc i (some j) = insert_at lines toc j
insert_section content lines toc i none =
    insert_behind_heading content lines toc (find_visible is_any_heading i none (drop i lines))

-- A section that is there is replaced, else a new one is inserted.
unfoldable pub place_section : Text → List Text → Text → Option ℕ → Text
unfolding replace_section insert_section after_front_matter find_separator
place_section content lines toc (some i) = replace_section lines toc i
place_section content lines toc none =
    let i = after_front_matter lines in
    insert_section content lines toc i (find_separator i (drop i lines))

-- The options of its call of `parse_headings`.
abbrev pub section_options : ℕ → HeadingOptions
section_options max_level = record {
  min_level = 1;
  max_level = max_level;
  skip_first = true;
  skip_toc_heading = true;
}

module _ (u : Unicode) (max_heading_level indent_size : ℕ) (numbered : Bool) where
  unfoldable pub sectioned : Text → List Heading → Text
  unfolding place_section build_toc split_on txt is_toc_heading find_visible
  sectioned content [] = content
  sectioned content (h ∷ hs) =
      let lines = split_on 10 content in
      let toc =
        fstring (txt "## Table of Contents\n\n" ∷ build_toc u indent_size numbered (h ∷ hs) ∷ []) in
      place_section content lines toc (find_visible is_toc_heading 0 none lines)

  unfoldable pub insert_toc_heading : Text → Text
  unfolding sectioned parse_headings split_on
  insert_toc_heading content =
      sectioned content (parse_headings u (section_options max_heading_level) (split_on 10 content))

-- The test of the loop of `_strip_manual_toc`: the line of a start marker is passed over. (The
-- inner loop over the lines behind the marker changes nothing.)
unfoldable pub is_manual_heading : Text → Bool
unfolding is_toc_heading strip toc_marker_start text_dec
is_manual_heading line = not (text_eq (strip line) toc_marker_start) && is_toc_heading line

-- The content without the section at the index, and whether there was one.
unfoldable pub remove_section : Text → List Text → Option ℕ → Text × Bool
unfolding next_heading_or_separator after_blank before_blank join_lines
remove_section content lines none = (content, false)
remove_section content lines (some i) =
    let end = or_end (next_heading_or_separator lines (i + 1)) lines in
    (join_lines (take (before_blank lines i) lines ++ drop (after_blank lines end) lines), true)

unfoldable pub strip_manual_toc : Text → Text × Bool
unfolding remove_section is_manual_heading find_visible split_on
strip_manual_toc content =
    let lines = split_on 10 content in
    remove_section content lines (find_visible is_manual_heading 0 none lines)
