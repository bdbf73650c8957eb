-- ===== src/Toc/Fence.antt =====
-- Fenced code blocks: `_fence_update` of toc.py, and the test that each of its loops over lines
-- makes with it.
use katapult.Base.{
  ℕ, ◌-◌, Bool, true, false, ◌&&◌, [], ◌∷◌, Option, none, some, ◌==◌, leb, if◌then◌else◌,
}
use katapult.Base.Lists.{length, is_nil}
use katapult.Base.Text.{Text, strip, lstrip_by, rstrip_by, is_space}
use katapult.Regex.{Regex, alt, at_least, Match, match_start}

-- Outside a fence, or the character and the length of its opener.
abbrev pub Fence : Type 0
Fence = Option (ℕ × ℕ)

-- `_FENCE_RE`
unfoldable pub fence_re : Regex
fence_re = alt (at_least 3 (λ c. c == b'`')) (at_least 3 (λ c. c == b'~'))

abbrev first_char : Text → ℕ
first_char [] = 0
first_char (c ∷ s) = c

-- The state behind a line that holds a fence token.
unfoldable pub fence_token : Match → Fence → Fence
unfolding strip
fence_token m none = some (first_char m.matched, length m.matched)
fence_token m (some (char, size)) =
    if first_char m.matched == char && leb size (length m.matched) && is_nil (strip m.rest)
    then none
    else some (char, size)

abbrev token_or_keep : Option Match → Fence → Fence
token_or_keep none f = f
token_or_keep (some m) f = fence_token m f

unfoldable pub fence_update : Text → Fence → Fence
unfolding fence_re fence_token match_start lstrip_by rstrip_by is_space
fence_update line f =
    let stripped = rstrip_by (λ c. c == 10) line in
    let leading = length stripped - length (lstrip_by (λ c. c == 32) stripped) in
    if leb leading 3
    then token_or_keep (match_start fence_re (lstrip_by is_space stripped)) f
    else f

abbrev pub same_fence : Fence → Fence → Bool
same_fence none none = true
same_fence none (some g) = false
same_fence (some f) none = false
same_fence (some (c, n)) (some (d, m)) = c == d && n == m

abbrev pub is_outside : Fence → Bool
is_outside none = true
is_outside (some f) = false

-- The line is looked at: it neither opens nor closes a fence, and stands in none.
unfoldable pub is_visible : Text → Fence → Bool
unfolding fence_update
is_visible line f = same_fence (fence_update line f) f && is_outside f
