-- ===== src/Diff/StripToc.antt =====
-- `_strip_toc_for_diff` and `_regenerate_toc` of diff_engine.py.
use katapult.Base.{ℕ, ◌+◌, Bool, true, ◌||◌, List, [], ◌∷◌, ◌++◌, Option, none, some, if◌then◌else◌}
use katapult.Base.Lists.{take, drop}
use katapult.Base.Text.{Text, split_on}
use katapult.Base.Unicode.{Unicode}
use katapult.Diff.Codec.{Bytes, Codec}
use katapult.Toc.Lines.{
  find_markers, is_toc_heading, is_any_heading, is_separator, after_blank, before_blank,
}
use katapult.Toc.Lines.{or_end}
use katapult.Toc.Section.{join_lines, insert_toc_heading}
use katapult.Toc.Markers.{insert_toc_markers}

-- `"markers"`, `"heading"`, or the empty text for no table.
pub data TocFormat : Type 0 where
  markers heading absent : TocFormat

-- The first line from the index on that passes a test, fences or not.
unfoldable pub find_line : (Text → Bool) → ℕ → List Text → Option ℕ
find_line p i [] = none
find_line p i (line ∷ lines) =
    let rest = find_line p (i + 1) lines in if p line then some i else rest

-- The lines without those from `s` up to `e`, nor the blank ones around them.
unfoldable pub cut : List Text → ℕ → ℕ → Text
unfolding before_blank after_blank join_lines
cut lines s e = join_lines (take (before_blank lines s) lines ++ drop (after_blank lines e) lines)

abbrev pub is_section_end : Text → Bool
is_section_end l = is_any_heading l || is_separator l

unfoldable pub strip_heading : Text → List Text → Option ℕ → Text × TocFormat
unfolding cut find_line
strip_heading text lines none = (text, absent)
strip_heading text lines (some i) =
    (cut lines i (or_end (find_line is_section_end (i + 1) (drop (i + 1) lines)) lines), heading)

unfoldable pub strip_table : Text → List Text → Option (ℕ × ℕ) → Text × TocFormat
unfolding cut strip_heading find_line
strip_table text lines (some (s, e)) = (cut lines s (e + 1), markers)
strip_table text lines none = strip_heading text lines (find_line is_toc_heading 0 lines)

-- The text without its table of contents.
unfoldable pub strip_toc : Text → Text × TocFormat
unfolding strip_table find_markers split_on is_toc_heading is_any_heading is_separator
strip_toc text = let lines = split_on 10 text in strip_table text lines (find_markers 0 none lines)

module _ (c : Codec) where
  abbrev encoded : Bytes → Text × TocFormat → Bytes × TocFormat
  encoded content (text, absent) = (content, absent)
  encoded content (text, markers) = (c.encode text, markers)
  encoded content (text, heading) = (c.encode text, heading)

  unfoldable pub strip_decoded : Bytes → Option Text → Bytes × TocFormat
  unfolding strip_toc
  strip_decoded content none = (content, absent)
  strip_decoded content (some text) = encoded content (strip_toc text)

  unfoldable pub strip_toc_for_diff : Bytes → Bytes × TocFormat
  unfolding strip_decoded
  strip_toc_for_diff content = strip_decoded content (c.decode content)

  module _ (u : Unicode) where
    abbrev pub regenerated : TocFormat → Text → Text
    unfolding insert_toc_markers insert_toc_heading
    regenerated markers text = insert_toc_markers u 3 2 text
    regenerated heading text = insert_toc_heading u 3 3 true text
    regenerated absent text = insert_toc_heading u 3 3 true text

    abbrev pub regenerate_decoded : TocFormat → Option Text → Option Bytes
    regenerate_decoded format none = none
    regenerate_decoded format (some text) = some (c.encode (regenerated format text))

    -- `none` where decoding raises.
    unfoldable pub regenerate_toc : Bytes → TocFormat → Option Bytes
    regenerate_toc content format = regenerate_decoded format (c.decode content)
