-- ===== src/Toc/Validate.antt =====
-- `validate_toc` of toc.py, with `_find_toc_section`, `_extract_toc_entries` and
-- `_build_expected_anchors`. Its `error` is that of constraints.py, which makes the same issue.
pub mod Clean
use katapult.Base.{
  ℕ, suc, ◌+◌, Bool, true, false, not, ◌&&◌, List, [], ◌∷◌, ◌++◌, map, Option, none, some, ◌==◌,
  if◌then◌else◌,
}
use katapult.Base.Lists.{length, is_nil, slice}
use katapult.Base.Text.{Text, txt, strip, split_on, fstring, contains, text_eq, text_dec}
use katapult.Base.Dict.{Dict, lookup, insert, keys}
use katapult.Base.Unicode.{Unicode}
use katapult.Regex.{Regex, lit, seq, group, plus, captured, finditer, Match}
use katapult.ErrorCodes.{toc_missing, toc_anchor_broken, toc_heading_not_in_toc, toc_stale}
use katapult.Issue.{FilePath, str, num, Issue, error}
use katapult.Codebase.Query.{Report}
use katapult.Toc.Slug.{unique_slug}
use katapult.Toc.Headings.{Heading, parse_headings, find_heading_line}
use katapult.Toc.Lines.{
  is_toc_heading, find_visible, next_heading_or_separator, or_end, find_markers,
}
use katapult.Toc.Markers.{insert_toc_markers}
use katapult.Toc.Section.{insert_toc_heading, section_options}

pub data Mode : Type 0 where
  heading markers : Mode

pub record TocSection : Type 0 where
  pub start : ℕ
  pub end : ℕ
  pub mode : Mode

abbrev marker_section : Option (ℕ × ℕ) → Option TocSection
marker_section none = none
marker_section (some (s, e)) = some (record { start = s; end = e + 1; mode = markers })

unfoldable pub section_at : List Text → Option ℕ → Option TocSection
unfolding next_heading_or_separator find_markers
section_at lines none = marker_section (find_markers 0 none lines)
section_at lines (some i) = some (record {
  start = i;
  end = or_end (next_heading_or_separator lines (i + 1)) lines;
  mode = heading;
})

-- `_find_toc_section`
unfoldable pub find_toc_section : List Text → Option TocSection
unfolding section_at find_visible is_toc_heading
find_toc_section lines = section_at lines (find_visible is_toc_heading 0 none lines)

-- `_TOC_LINK_RE`: `\[([^\]]+)\]\(#([^)]+)\)`
unfoldable pub toc_link_re : Regex
unfolding txt
toc_link_re = seq (lit (txt "[")) (
    seq (group 1 (plus (λ c. not (c == b']'))))
      (seq (lit (txt "](#")) (seq (group 2 (plus (λ c. not (c == b')')))) (lit (txt ")")))))

pub record Entry : Type 0 where
  pub display : Text
  pub anchor : Text
  pub line : ℕ

abbrev entry_of : ℕ → Match → Entry
unfolding strip
entry_of line m = record {
  display = strip (captured 1 m.groups);
  anchor = strip (captured 2 m.groups);
  line = line;
}

-- The entries of lines of which the first has the number.
unfoldable pub entries_from : ℕ → List Text → List Entry
unfolding finditer toc_link_re strip
entries_from n [] = []
entries_from n (line ∷ lines) =
    map (entry_of n) (finditer toc_link_re line) ++ entries_from (n + 1) lines

-- `_extract_toc_entries`
unfoldable pub extract_toc_entries : List Text → ℕ → ℕ → List Entry
unfolding entries_from
extract_toc_entries lines start end = entries_from (start + 1) (slice start end lines)

-- `toc_anchors`
unfoldable pub toc_anchors : Dict ℕ → List Entry → Dict ℕ
unfolding insert
toc_anchors d [] = d
toc_anchors d (e ∷ es) = toc_anchors (insert e.anchor e.line d) es

unfoldable pub broken_error : FilePath → Entry → Issue
unfolding error txt
broken_error path e =
    error (txt "toc")
      (fstring (
        txt "TOC entry `["
        ∷ e.display
        ∷ txt "](#"
        ∷ e.anchor
        ∷ txt ")` points to non-existent heading"
        ∷ []))
      path e.line (some toc_anchor_broken)
      ((txt "toc_display", some (str e.display)) ∷ (txt "toc_anchor", some (str e.anchor)) ∷ [])

-- The errors of the entries whose anchor is no key of the expected ones.
unfoldable pub broken_anchors : FilePath → List Text → List Entry → List Issue
unfolding broken_error
broken_anchors path expected [] = []
broken_anchors path expected (e ∷ es) =
    let rest = broken_anchors path expected es in
    if contains e.anchor expected then rest else broken_error path e ∷ rest

unfoldable pub unlisted_error : FilePath → List Text → Text → Text → Issue
unfolding error txt find_heading_line
unlisted_error path lines anchor title =
    error (txt "toc")
      (fstring (txt "Heading `" ∷ title ∷ txt "` is not listed in the Table of Contents" ∷ [])) path
      (find_heading_line lines title) (some toc_heading_not_in_toc)
      ((txt "heading_text", some (str title)) ∷ (txt "expected_anchor", some (str anchor)) ∷ [])

-- The errors of the headings whose anchor is no key of the listed ones.
unfoldable pub unlisted : FilePath → List Text → List Text → Dict Text → List Issue
unfolding unlisted_error
unlisted path lines listed [] = []
unlisted path lines listed ((anchor, title) ∷ expected) =
    let rest = unlisted path lines listed expected in
    if contains anchor listed then rest else unlisted_error path lines anchor title ∷ rest

-- The number of the first line that differs, counted from the number given.
unfoldable pub diff_line : ℕ → List Text → List Text → ℕ
unfolding text_dec
diff_line n [] fresh = n
diff_line n (l ∷ lines) [] = n
diff_line n (l ∷ lines) (f ∷ fresh) =
    let rest = diff_line (n + 1) lines fresh in if text_eq l f then rest else n

unfoldable pub stale_error : FilePath → ℕ → Issue
unfolding error txt
stale_error path line =
    error (txt "toc") (txt "Table of Contents is outdated — regenerate with `cypilot toc`") path
      line (some toc_stale) []

unfoldable pub missing_error : FilePath → ℕ → Issue
unfolding error txt
missing_error path count =
    error (txt "toc") (txt "Document has headings but no Table of Contents section") path 1
      (some toc_missing) ((txt "heading_count", some (num count)) ∷ [])

module _ (u : Unicode) where
  -- `_build_expected_anchors`: anchor to text, with the counts of the slugs passed on.
  unfoldable pub expected_onto : Dict ℕ → Dict Text → List Heading → Dict Text
  unfolding unique_slug insert
  expected_onto counts d [] = d
  expected_onto counts d (h ∷ hs) =
      let (slug, counts') = unique_slug u h.title counts in
      expected_onto counts' (insert slug h.title d) hs

  unfoldable pub build_expected_anchors : List Heading → Dict Text
  unfolding expected_onto
  build_expected_anchors hs = expected_onto [] [] hs

  module _ (path : FilePath) (max_level : ℕ) (content : Text) where
    -- The table generated anew, with the defaults of the two insertions.
    unfoldable pub regenerate : Mode → Text
    unfolding insert_toc_heading insert_toc_markers
    regenerate heading = insert_toc_heading u max_level 3 true content
    regenerate markers = insert_toc_markers u max_level 2 content

    -- The staleness check, which is made where there are no errors.
    unfoldable pub stale : Mode → List Issue → List Issue
    unfolding regenerate diff_line stale_error split_on
    stale mode (e ∷ es) = []
    stale mode [] =
        let fresh = regenerate mode in
        if text_eq fresh content
        then []
        else stale_error path (diff_line 1 (split_on 10 content) (split_on 10 fresh)) ∷ []

    -- The checks behind the search for the section.
    unfoldable pub check_section : List Heading → Option TocSection → Report
    unfolding missing_error extract_toc_entries toc_anchors broken_anchors unlisted keys
        build_expected_anchors stale split_on
    check_section hs none = record { errors = missing_error path (length hs) ∷ []; warnings = [] }
    check_section hs (some t) =
        let lines = split_on 10 content in
        let entries = extract_toc_entries lines t.start t.end in
        let expected = build_expected_anchors hs in
        let errors =
          broken_anchors path (keys expected) entries
          ++ unlisted path lines (keys (toc_anchors [] entries)) expected in
        record { errors = errors; warnings = stale t.mode errors }

    unfoldable pub check_headings : List Heading → Report
    unfolding check_section find_toc_section split_on
    check_headings [] = record { errors = []; warnings = [] }
    check_headings (h ∷ hs) = check_section (h ∷ hs) (find_toc_section (split_on 10 content))

    unfoldable pub validate_toc : Report
    unfolding check_headings parse_headings split_on
    validate_toc =
        check_headings (parse_headings u (section_options max_level) (split_on 10 content))
