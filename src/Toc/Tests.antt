-- ===== src/Toc/Tests.antt =====
-- Runs of the table of contents, and its laws at those runs.
use katapult.Base.{◌≡◌, ◌↔◌, refl, true, false, List, [], ◌∷◌, ◌++◌, none, some, map}
use katapult.Base.Lists.{All}
use katapult.Base.Text.{Text, txt, text_dec, contains}
use katapult.Base.Dict.{keys}
use katapult.Base.Unicode.{ascii}
use katapult.Toc.Fence.{fence_update}
use katapult.Toc.Slug.{github_anchor}
use katapult.Toc.Slug.Numbering.{slugs_onto, numbered_slugs, unique_slug-numbered}
use katapult.Toc.Headings.{Heading, HeadingOptions, parse_headings}
use katapult.Toc.Headings.Fenced.{IsWanted, parse_headings-IsWanted, parse_headings-fenced}
use katapult.Toc.Markers.{insert_toc_markers}
use katapult.Toc.Process.{process_file}
use katapult.Toc.Process.Writes.{Agrees, process_file-Agrees}
use katapult.Toc.Validate.{TocSection, heading, check_section, build_expected_anchors}
use katapult.Toc.Validate.Clean.{listed_anchors, check_section-clean}

abbrev doc : Text
unfolding txt
doc = txt "# T\n\nintro\n## One `x`\n```\n## no\n```\n## Two [a](b)\n### Two\n"

-- The document with the table between its markers.
abbrev doc_with_toc : Text
unfolding txt
doc_with_toc =
    txt
      "# T\n\n\n<!-- toc -->\n\n- [One `x`](#one-x)\n- [Two a](#two-a)\n  - [Two](#two)\n\n<!-- /toc -->\n\nintro\n## One `x`\n```\n## no\n```\n## Two [a](b)\n### Two\n"

insert_toc_markers_result : insert_toc_markers ascii 6 2 doc ≡ doc_with_toc
unfolding insert_toc_markers text_dec doc doc_with_toc
insert_toc_markers_result = refl

insert_toc_markers_again : insert_toc_markers ascii 6 2 doc_with_toc ≡ doc_with_toc
unfolding insert_toc_markers text_dec doc_with_toc
insert_toc_markers_again = refl

-- A run that writes the table, and a dry run.
process_file-Agrees_example : Agrees false doc (process_file ascii 6 2 false (some doc))
process_file-Agrees_example = process_file-Agrees ascii 6 2 false doc

process_file_result : (process_file ascii 6 2 false (some doc)).0 ≡ some doc_with_toc
unfolding process_file text_dec doc doc_with_toc
process_file_result = refl

process_file_dry : (process_file ascii 6 2 true (some doc)).0 ≡ none
unfolding process_file text_dec doc
process_file_dry = refl

abbrev titles : List Text
unfolding txt
titles = txt "Setup" ∷ txt "Use" ∷ txt "Setup" ∷ txt "Setup" ∷ []

unique_slug-numbered_example : (slugs_onto ascii titles []).0 ≡ numbered_slugs ascii [] titles
unique_slug-numbered_example = unique_slug-numbered ascii titles

abbrev one : Text
unfolding txt
one = txt "A"

abbrev one_dash : Text
unfolding txt
one_dash = txt "a-1"

-- Slugs are not unique: the second and the third heading get the same one.
slug_collision :
    (slugs_onto ascii (one ∷ one ∷ one_dash ∷ []) []).0 ≡ txt "a" ∷ txt "a-1" ∷ txt "a-1" ∷ []
unfolding slugs_onto github_anchor one one_dash text_dec txt
slug_collision = refl

abbrev options : HeadingOptions
options = record { min_level = 1; max_level = 6; skip_first = false; skip_toc_heading = true }

abbrev backticks : Text
unfolding txt
backticks = txt "```"

abbrev hidden : List Text
unfolding txt
hidden = txt "## no" ∷ []

abbrev shown : List Text
unfolding txt
shown = txt "## TOC" ∷ txt "### Two" ∷ []

backticks-opens : fence_update backticks none ≡ some (96, 3)
unfolding fence_update backticks
backticks-opens = refl

hidden-stays : All (λ l. fence_update l (some (96, 3)) ≡ some (96, 3)) hidden
unfolding fence_update hidden
hidden-stays = (refl, tt)

backticks-closes : fence_update backticks (some (96, 3)) ≡ none
unfolding fence_update backticks
backticks-closes = refl

parse_headings-fenced_example :
    parse_headings ascii options (backticks ∷ (hidden ++ backticks ∷ shown))
    ≡ parse_headings ascii options shown
parse_headings-fenced_example =
    parse_headings-fenced ascii options backticks backticks hidden shown (96, 3) backticks-opens
      hidden-stays backticks-closes

parse_headings-IsWanted_example : All (IsWanted ascii options) (parse_headings ascii options shown)
parse_headings-IsWanted_example = parse_headings-IsWanted ascii options shown

abbrev listed : Text
unfolding txt
listed = txt "## Table of Contents\n- [A](#a)\n## A\n## B"

abbrev table : TocSection
table = record { start = 0; end = 2; mode = heading }

abbrev a_md : Text
unfolding txt
a_md = txt "a.md"

abbrev two_headings : List Heading
unfolding txt
two_headings = record { level = 2; title = txt "A" } ∷ record { level = 2; title = txt "B" } ∷ []

check_section-clean_example :
    ((check_section ascii a_md 6 listed two_headings (some table)).errors ≡ []) ↔ (
      (k : Text)
      → contains k (listed_anchors ascii a_md 6 listed table)
        ≡ contains k (keys (build_expected_anchors ascii two_headings)))
check_section-clean_example = check_section-clean ascii a_md 6 listed two_headings table

-- The heading that the table leaves out is reported.
check_section_result :
    map (λ e. e.line) (check_section ascii a_md 6 listed two_headings (some table)).errors ≡ 4 ∷ []
unfolding check_section text_dec listed two_headings a_md txt keys
check_section_result = refl
