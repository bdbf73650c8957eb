-- ===== src/Document/Content/Search.antt =====
-- The three searches of `get_content_scoped` of document.py, in its order.
use katapult.Base.{
  ℕ, ◌+◌, ◌-◌, Bool, false, not, ◌&&◌, ◌||◌, List, [], ◌∷◌, Option, none, some, leb, if◌then◌else◌,
}
use katapult.Base.Lists.{length, slice, is_nil}
use katapult.Base.Text.{Text, txt, strip, text_eq, text_dec, contains}
use katapult.Base.Unicode.{Unicode, is_some}
use katapult.Regex.{Match, match_start, captured}
use katapult.Document.Patterns.{heading_re, id_def_re}
use katapult.Document.Content.Names.{find_ids, strip_ticks, normalize_cpt_id_from_line}
use katapult.Document.Content.Emit.{Scoped, cut}
use katapult.Document.Ids.{is_fence}
use katapult.Document.Outline.{level_of}
use katapult.Document.Steps.{parent_of}

-- A line of two or three `#` alone.
unfoldable pub is_hash_fence : Text → Bool
unfolding strip txt text_dec
is_hash_fence ln = text_eq (strip ln) (txt "##") || text_eq (strip ln) (txt "###")

unfoldable pub fence_idxs : ℕ → List Text → List ℕ
unfolding is_hash_fence
fence_idxs i [] = []
fence_idxs i (ln ∷ lines) =
    let rest = fence_idxs (i + 1) lines in if is_hash_fence ln then i ∷ rest else rest

-- `zip(idxs[0::2], idxs[1::2])`
abbrev pub pairs : List ℕ → List (ℕ × ℕ)
pairs (a ∷ b ∷ idxs) = (a, b) ∷ pairs idxs
pairs _ = []

abbrev pub at_boundary : ℕ → Option Text → List (ℕ × Text) → List (ℕ × Text)
at_boundary i none rest = rest
at_boundary i (some id) rest = (i, id) ∷ rest

-- The lines of a block that give an id.
unfoldable pub boundaries : ℕ → List Text → List (ℕ × Text)
unfolding normalize_cpt_id_from_line
boundaries i [] = []
boundaries i (ln ∷ inner) = at_boundary i (normalize_cpt_id_from_line ln) (boundaries (i + 1) inner)

-- The last line of the segment: before the next boundary, or before the closing fence.
abbrev pub segment_end : ℕ → ℕ → List (ℕ × Text) → ℕ
segment_end start_i end_i [] = end_i - 1
segment_end start_i end_i ((next_rel, id) ∷ bs) = (start_i + 1 + next_rel) - 1

-- A search goes on where it finds nothing, and ends with what it returns.
abbrev pub Search : Type 0
Search = Option (Option Scoped)

abbrev pub or_else : Search → Search → Search
or_else none later = later
or_else (some r) later = some r

-- The line before the one where the scope stops, or the last.
abbrev pub last_line : List Text → Option ℕ → ℕ
last_line lines none = length lines - 1
last_line lines (some j) = j - 1

abbrev pub stops_at : ℕ → Option Match → ℕ → Option ℕ → Option ℕ
stops_at level none j later = later
stops_at level (some m) j later = if leb (level_of m) level then some j else later

-- The next heading of the level or a higher one.
unfoldable pub next_heading : ℕ → ℕ → List Text → Option ℕ
unfolding heading_re match_start
next_heading level j [] = none
next_heading level j (ln ∷ rest) =
    stops_at level (match_start heading_re ln) j (next_heading level (j + 1) rest)

module _ (lines : List Text) (wanted : Text) where
  unfoldable pub in_segments : ℕ → ℕ → List (ℕ × Text) → Search
  unfolding cut text_dec
  in_segments start_i end_i [] = none
  in_segments start_i end_i ((b_rel, id) ∷ bs) =
      let later = in_segments start_i end_i bs in
      if text_eq id wanted
      then some (cut lines (start_i + 1 + b_rel + 1) (segment_end start_i end_i bs))
      else later

  -- The loop over the blocks between two hash fences.
  unfoldable pub in_blocks : List (ℕ × ℕ) → Search
  unfolding in_segments boundaries
  in_blocks [] = none
  in_blocks ((start_i, end_i) ∷ blocks) =
      let inner = slice (start_i + 1) end_i lines in
      let later = in_blocks blocks in
      if leb end_i (start_i + 1)
      then later
      else or_else (in_segments start_i end_i (boundaries 0 inner)) later

  -- The heading's title names the id.
  unfoldable pub is_titled : Text → Bool
  unfolding find_ids strip strip_ticks text_dec
  is_titled title =
      contains wanted (find_ids title)
      || text_eq wanted (strip title)
      || text_eq wanted (strip (strip_ticks title))

  unfoldable pub under_heading : ℕ → List Text → Option Match → Search → Search
  unfolding is_titled next_heading cut
  under_heading idx rest none later = later
  under_heading idx rest (some m) later =
      if is_titled (captured 2 m.groups)
      then some (cut lines (idx + 1) (last_line lines (next_heading (level_of m) (idx + 1) rest)))
      else later

  unfoldable pub in_headings : ℕ → List Text → Search
  unfolding under_heading heading_re match_start
  in_headings idx [] = none
  in_headings idx (ln ∷ rest) =
      under_heading idx rest (match_start heading_re ln) (in_headings (idx + 1) rest)

module _ (u : Unicode) where
  -- What stops the scope of a definition: the next one, or a heading of the level or a higher one.
  unfoldable pub stops_here : ℕ → ℕ → Text → Option ℕ → Option ℕ
  unfolding id_def_re heading_re match_start strip
  stops_here cutoff j ln later =
      if is_some (match_start (id_def_re u) (strip ln))
      then some j
      else stops_at cutoff (match_start heading_re ln) j later

  unfoldable pub next_stop : ℕ → Bool → ℕ → List Text → Option ℕ
  unfolding is_fence stops_here
  next_stop cutoff f j [] = none
  next_stop cutoff f j (ln ∷ rest) =
      let fenced = is_fence ln in
      let later = next_stop cutoff (if fenced then not f else f) (j + 1) rest in
      if fenced then later else if f then later else stops_here cutoff j ln later

abbrev pub cutoff_of : Option ℕ → ℕ
cutoff_of none = 6
cutoff_of (some level) = level

abbrev pub level_after : Option ℕ → Option Match → Option ℕ
level_after level none = level
level_after level (some m) = some (level_of m)

module _ (u : Unicode) (lines : List Text) (wanted : Text) where
  -- `mdef.group("id") or …` is the id: the groups hold no empty text, so an empty one is no id.
  unfoldable pub under_definition : ℕ → Option ℕ → List Text → Option Match → Search → Search
  unfolding next_stop cut parent_of text_dec
  under_definition idx level rest none later = later
  under_definition idx level rest (some m) later =
      if not (is_nil (parent_of m)) && text_eq (parent_of m) wanted
      then some (
          cut lines (idx + 1)
            (last_line lines (next_stop u (cutoff_of level) false (idx + 1) rest)))
      else later

  -- The loop over the definitions, with whether the line stands in a fence and the level of the last
  -- heading.
  unfoldable pub in_definitions : Bool → Option ℕ → ℕ → List Text → Search
  unfolding under_definition is_fence id_def_re heading_re match_start strip
  in_definitions f level idx [] = none
  in_definitions f level idx (ln ∷ rest) =
      let fenced = is_fence ln in
      let heading = match_start heading_re ln in
      let level' = if fenced then level else if f then level else level_after level heading in
      let later = in_definitions (if fenced then not f else f) level' (idx + 1) rest in
      if fenced
      then later
      else if f
      then later
      else if is_some heading
      then later
      else under_definition idx level rest (match_start (id_def_re u) (strip ln)) later

abbrev pub found : Search → Option Scoped
found none = none
found (some r) = r

unfoldable pub get_content_scoped : Unicode → Option (List Text) → Text → Option Scoped
unfolding in_blocks in_headings in_definitions fence_idxs strip
get_content_scoped u none id_value = none
get_content_scoped u (some lines) id_value =
    let wanted = strip id_value in
    found (
      or_else (in_blocks lines wanted (pairs (fence_idxs 0 lines))) (
        or_else (in_headings lines wanted 0 lines)
          (in_definitions u lines wanted false none 0 lines)))
