-- ===== src/Document/Content/Emit.antt =====
-- `emit` of `get_content_scoped` of document.py: a text without its blank first and last lines.
use katapult.Base.{ℕ, ◌+◌, ◌-◌, ◌&&◌, List, [], ◌∷◌, Option, none, some, ltb, if◌then◌else◌}
use katapult.Base.Lists.{slice, is_nil}
use katapult.Base.Text.{Text, strip, join}

-- The text with its first and last line, counted from 1.
abbrev pub Scoped : Type 0
Scoped = Text × (ℕ × ℕ)

-- The first loop of `emit`: the lines from the first that is not blank, and its index.
unfoldable pub trim_start : List Text → ℕ → List Text × ℕ
unfolding strip
trim_start [] i = ([], i)
trim_start (l ∷ ls) i =
    let rest = trim_start ls (i + 1) in if is_nil (strip l) then rest else (l ∷ ls, i)

-- The second loop: the lines up to the last that is not blank, and how many were taken away.
unfoldable pub trim_end : List Text → List Text × ℕ
unfolding strip
trim_end [] = ([], 0)
trim_end (l ∷ ls) =
    let (rest, k) = trim_end ls in
    if is_nil rest && is_nil (strip l) then ([], k + 1) else (l ∷ rest, k)

unfoldable pub emit : List Text → ℕ → ℕ → Option Scoped
unfolding trim_start trim_end join strip
emit text_lines start_idx end_idx =
    let (front, start') = trim_start text_lines start_idx in
    let (kept, removed) = trim_end front in
    let text = strip (join (10 ∷ []) kept) in
    if is_nil text then none else some (text, (start' + 1, (end_idx - removed) + 1))

-- `lines[start : end + 1]`, unless there is none.
unfoldable pub cut : List Text → ℕ → ℕ → Option Scoped
unfolding emit
cut lines start end = if ltb end start then none else emit (slice start (end + 1) lines) start end
