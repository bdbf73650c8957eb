-- ===== src/Toc/Slug.antt =====
-- Anchors: `github_anchor` and `_unique_slug` of toc.py.
pub mod Numbering
use katapult.Base.{
  ℕ, ◌+◌, Bool, true, false, not, ◌&&◌, ◌||◌, List, [], ◌∷◌, ◌++◌, Option, none, some, ◌==◌,
  if◌then◌else◌,
}
use katapult.Base.Text.{Text, txt, strip, is_space, lstrip_by, rstrip_by, decimal, text_dec}
use katapult.Base.Dict.{Dict, lookup, insert}
use katapult.Base.Unicode.{Unicode}
use katapult.Regex.{Regex, chr, lit, seq, alt, group, plus, captured, sub, Match, char_in}

-- `\[([^\]]+)\]\([^)]+\)`
unfoldable pub link_re : Regex
unfolding txt
link_re = seq (lit (txt "[")) (
    seq (group 1 (plus (λ c. not (c == b']'))))
      (seq (lit (txt "](")) (seq (plus (λ c. not (c == b')'))) (lit (txt ")")))))

-- Links keep their text: `re.sub(r"\[([^\]]+)\]\([^)]+\)", r"\1", s)`
unfoldable pub strip_links : Text → Text
unfolding link_re sub
strip_links s = sub link_re (λ m. captured 1 m.groups) s

-- `\*\*|__|[*_`~]`
unfoldable pub format_re : Regex
unfolding txt
format_re = alt (lit (txt "**")) (alt (lit (txt "__")) (chr (char_in (txt "*_`~"))))

module _ (u : Unicode) where
  -- `[^\w\s\-]`
  unfoldable pub is_dropped : ℕ → Bool
  unfolding is_space
  is_dropped c = not (u.is_word c || is_space c || c == b'-')

  unfoldable pub github_anchor : Text → Text
  unfolding strip strip_links format_re is_dropped sub is_space lstrip_by rstrip_by
  github_anchor text =
      let plain = strip_links (u.lower (strip text)) in
      let bare = sub format_re (λ m. []) plain in
      let words = sub (chr is_dropped) (λ m. []) bare in
      let dashed = sub (chr is_space) (λ m. b'-' ∷ []) words in
      rstrip_by (λ c. c == b'-') (lstrip_by (λ c. c == b'-') dashed)

  -- The slug and the counts behind it, from the anchor's count.
  unfoldable pub numbered_slug : Text → Dict ℕ → Option ℕ → Text × Dict ℕ
  unfolding decimal txt insert
  numbered_slug slug counts none = (slug, insert slug 0 counts)
  numbered_slug slug counts (some n) =
      (slug ++ (txt "-" ++ decimal (n + 1)), insert slug (n + 1) counts)

  -- `_unique_slug`; the dict of counts is passed on.
  unfoldable pub unique_slug : Text → Dict ℕ → Text × Dict ℕ
  unfolding github_anchor numbered_slug lookup text_dec
  unique_slug text counts =
      let slug = github_anchor text in numbered_slug slug counts (lookup slug counts)
