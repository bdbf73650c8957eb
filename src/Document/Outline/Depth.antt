-- ===== src/Document/Outline/Depth.antt =====
-- How many headings are active on a line.
use mathlib.Core.List.{reverse, reverse-append}
use katapult.Base.{
  ℕ, ◌+◌, ◌≤◌, ◌<◌, ◌≡◌, refl, ◌∙◌, Bool, true, false, not, List, [], ◌∷◌, map, Option, none, some,
  arith, if◌then◌else◌, Bool-cases, inl, inr,
}
use katapult.Base.Lists.{length, All, length-append}
use katapult.Base.Text.{Text}
use katapult.Regex.{Match, match_start}
use katapult.Regex.Captures.{is_caught, is_sized, is_free, length-captured}
use katapult.Document.Patterns.{heading_re}
use katapult.Document.Ids.{is_fence}
use katapult.Document.Outline.{
  Stack, pop_to, level_of, enter_heading, after_line, titles, outline_from, headings_by_line,
}

-- The levels fall from the number downwards, and none is zero.
abbrev IsNested : ℕ → Stack → Type 0
IsNested k [] = Unit
IsNested k ((l, t) ∷ stack) = (1 ≤ l) × (l < k) × IsNested l stack

pop_to-IsNested :
    (level k : ℕ) (stack : Stack) → IsNested k stack → IsNested level (pop_to level stack)
unfolding pop_to
pop_to-IsNested level k [] h = tt
pop_to-IsNested level k ((l, t) ∷ stack) h = ground (arith, pop_to-IsNested level l stack h.2)

level_range :
    (raw : Text) (m : Match)
    → match_start heading_re raw ≡ some m
    → (1 ≤ level_of m) × (level_of m ≤ 6)
level_range raw m e =
    length-captured 1 1 6 heading_re raw m (unfold heading_re is_caught is_sized is_free in refl) e

after_line-IsNested :
    (raw : Text) (f : Bool) (stack : Stack) → IsNested 7 stack → IsNested 7 (after_line raw f stack)
unfolding after_line
after_line-IsNested raw true stack h = ground arith
after_line-IsNested raw false stack h = elim (Bool-cases (is_fence raw)) [
  | inl e ↦ rw e h
  | inr e ↦ rw e (go (match_start heading_re raw) refl)
]
  where
    go : (o : Option Match) → match_start heading_re raw ≡ o → IsNested 7 (enter_heading o stack)
    go none p = h
    go (some m) p =
        let r = level_range raw m p in (r.0, omega arith, pop_to-IsNested (level_of m) 7 stack h)

length-nested : (k : ℕ) (stack : Stack) → 1 ≤ k → IsNested k stack → length stack + 1 ≤ k
length-nested k [] p h = p
length-nested k ((l, t) ∷ stack) p h = omega (arith, length-nested l stack h.0 h.2)

length-reverse : (xs : List Text) → length (reverse xs) ≡ length xs
length-reverse [] = refl
length-reverse (x ∷ xs) =
    rw (reverse-append (x ∷ []) xs)
      (length-append (reverse xs) (x ∷ []) ∙ omega (arith, length-reverse xs))

length-titles : (stack : Stack) → length (titles stack) ≡ length stack
length-titles stack = length-reverse (map (λ e. e.1) stack) ∙ over stack
  where
    over : (s : Stack) → length (map (λ (e : ℕ × Text). e.1) s) ≡ length s
    over [] = refl
    over (e ∷ s) = omega (arith, over s)

abbrev pub IsShallow : List Text → Type 0
IsShallow ts = length ts ≤ 6

outline_from-IsShallow :
    (f : Bool) (stack : Stack) (lines : List Text)
    → IsNested 7 stack
    → (length (outline_from f stack lines) ≡ length lines)
      × All IsShallow (outline_from f stack lines)
unfolding outline_from
outline_from-IsShallow f stack [] h = (refl, tt)
outline_from-IsShallow f stack (raw ∷ lines) h =
    let stack' = after_line raw f stack in
    let nested = after_line-IsNested raw f stack h in
    let rest = outline_from-IsShallow (if is_fence raw then not f else f) stack' lines nested in
    (
      omega (arith, rest.0),
      (omega (arith, length-titles stack', length-nested 7 stack' (omega arith) nested), rest.1),
    )

-- There is one entry for each line and one in front, and no line has more than six active
-- headings.
pub headings_by_line-IsShallow :
    (lines : List Text)
    → (length (headings_by_line (some lines)) ≡ length lines + 1)
      × All IsShallow (headings_by_line (some lines))
unfolding headings_by_line
headings_by_line-IsShallow lines =
    let rest = outline_from-IsShallow false [] lines tt in
    (omega (arith, rest.0), (omega arith, rest.1))
