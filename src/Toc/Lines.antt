-- ===== src/Toc/Lines.antt =====
-- The searches over lines that the insertions of toc.py share.
use katapult.Base.{
  ℕ, suc, zero, ◌+◌, Bool, false, ◌&&◌, ◌||◌, List, [], ◌∷◌, Option, none, some, ◌==◌,
  if◌then◌else◌,
}
use katapult.Base.Lists.{length, is_nil, drop, get_elem?}
use katapult.Base.Text.{Text, txt, strip, is_space, text_eq, text_dec}
use katapult.Base.Unicode.{is_some}
use katapult.Regex.{Regex, chr, lit, seq, plus, star, between, eos, match_start}
use katapult.Toc.Fence.{Fence, fence_update, is_visible}

-- `TOC_MARKER_START` and `TOC_MARKER_END`
unfoldable pub toc_marker_start : Text
unfolding txt
toc_marker_start = txt "<!-- toc -->"

unfoldable pub toc_marker_end : Text
unfolding txt
toc_marker_end = txt "<!-- /toc -->"

-- `^##\s+Table of Contents\s*$`
unfoldable pub toc_heading_re : Regex
unfolding txt is_space
toc_heading_re =
    seq (lit (txt "##"))
      (seq (plus is_space) (seq (lit (txt "Table of Contents")) (seq (star is_space) eos)))

-- `^#{1,6}\s`
unfoldable pub any_heading_re : Regex
unfolding is_space
any_heading_re = seq (between 1 6 (λ c. c == b'#')) (chr is_space)

unfoldable pub is_toc_heading : Text → Bool
unfolding toc_heading_re match_start
is_toc_heading line = is_some (match_start toc_heading_re line)

unfoldable pub is_any_heading : Text → Bool
unfolding any_heading_re match_start
is_any_heading line = is_some (match_start any_heading_re line)

-- `line.strip() == ""`, and `line.strip() == "---"`
unfoldable pub is_blank : Text → Bool
unfolding strip
is_blank line = is_nil (strip line)

unfoldable pub is_separator : Text → Bool
unfolding strip txt text_dec
is_separator line = text_eq (strip line) (txt "---")

-- The loops that stop at the first line outside the fences that passes a test: its index.
unfoldable pub find_visible : (Text → Bool) → ℕ → Fence → List Text → Option ℕ
unfolding is_visible
find_visible p i fence [] = none
find_visible p i fence (line ∷ lines) =
    let rest = find_visible p (i + 1) (fence_update line fence) lines in
    if is_visible line fence && p line then some i else rest

-- `_next_heading_or_separator(lines, start)`, and its fallback to the end of the lines.
unfoldable pub next_heading_or_separator : List Text → ℕ → Option ℕ
unfolding find_visible is_any_heading is_separator
next_heading_or_separator lines start =
    find_visible (λ l. is_any_heading l || is_separator l) start none (drop start lines)

abbrev pub or_end : Option ℕ → List Text → ℕ
or_end none lines = length lines
or_end (some i) lines = i

-- The first start marker, and the first end marker behind it.
unfoldable pub find_markers : ℕ → Option ℕ → List Text → Option (ℕ × ℕ)
unfolding strip text_dec toc_marker_start toc_marker_end
find_markers i start [] = none
find_markers i none (line ∷ lines) =
    find_markers (i + 1) (if text_eq (strip line) toc_marker_start then some i else none) lines
find_markers i (some s) (line ∷ lines) =
    let rest = find_markers (i + 1) (some s) lines in
    if text_eq (strip line) toc_marker_end then some (s, i) else rest

-- How many blank lines stand at the start.
unfoldable pub blank_run : List Text → ℕ
unfolding is_blank
blank_run [] = 0
blank_run (line ∷ lines) = let rest = blank_run lines in if is_blank line then suc rest else 0

-- `while i < len(lines) and lines[i].strip() == "": i += 1`
unfoldable pub after_blank : List Text → ℕ → ℕ
unfolding blank_run
after_blank lines i = i + blank_run (drop i lines)

abbrev blank_at : Option Text → Bool
unfolding is_blank
blank_at none = false
blank_at (some line) = is_blank line

-- `while i > 0 and lines[i - 1].strip() == "": i -= 1`
unfoldable pub before_blank : List Text → ℕ → ℕ
unfolding is_blank
before_blank lines zero = zero
before_blank lines (suc i) =
    let rest = before_blank lines i in if blank_at (get_elem? lines i) then rest else suc i
