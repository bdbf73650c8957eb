-- ===== src/Document/Outline.antt =====
-- `headings_by_line` of document.py: the headings that are active on each line.
pub mod Depth
use mathlib.Core.List.{reverse}
use katapult.Base.{
  ℕ, Bool, true, false, not, List, [], ◌∷◌, map, Option, none, some, leb, if◌then◌else◌,
}
use katapult.Base.Lists.{length}
use katapult.Base.Text.{Text, strip}
use katapult.Regex.{Match, match_start, captured}
use katapult.Document.Patterns.{heading_re}
use katapult.Document.Ids.{is_fence}

-- The open headings with their levels, the innermost first: the end of the source's list.
abbrev pub Stack : Type 0
Stack = List (ℕ × Text)

-- `while stack and stack[-1][0] >= level: stack.pop()`
unfoldable pub pop_to : ℕ → Stack → Stack
pop_to level [] = []
pop_to level ((l, t) ∷ stack) =
    let rest = pop_to level stack in if leb level l then rest else (l, t) ∷ stack

abbrev pub level_of : Match → ℕ
level_of m = length (captured 1 m.groups)

unfoldable pub enter_heading : Option Match → Stack → Stack
unfolding pop_to strip
enter_heading none stack = stack
enter_heading (some m) stack = (level_of m, strip (captured 2 m.groups)) ∷ pop_to (level_of m) stack

-- The stack behind a line.
unfoldable pub after_line : Text → Bool → Stack → Stack
unfolding enter_heading is_fence heading_re match_start
after_line raw in_fence stack =
    if is_fence raw
    then stack
    else if in_fence
    then stack
    else enter_heading (match_start heading_re raw) stack

abbrev pub titles : Stack → List Text
titles stack = reverse (map (λ e. e.1) stack)

-- The loop, with whether the line stands in a fence.
unfoldable pub outline_from : Bool → Stack → List Text → List (List Text)
unfolding after_line is_fence
outline_from in_fence stack [] = []
outline_from in_fence stack (raw ∷ lines) =
    let stack' = after_line raw in_fence stack in
    titles stack' ∷ outline_from (if is_fence raw then not in_fence else in_fence) stack' lines

-- The entry at 0 is empty; the lines are numbered from 1.
unfoldable pub headings_by_line : Option (List Text) → List (List Text)
unfolding outline_from
headings_by_line none = [] ∷ []
headings_by_line (some lines) = [] ∷ outline_from false [] lines
