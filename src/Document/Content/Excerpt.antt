-- ===== src/Document/Content/Excerpt.antt =====
-- Where a text that `emit` leaves stands in the artifact.
use katapult.Base.{
  ℕ, zero, suc, ◌+◌, ◌-◌, ◌≤◌, ◌<◌, ◌≡◌, ◌≢◌, refl, ap, ◌∙◌, sym, subst, true, ◌&&◌, List, [], ◌∷◌,
  Option, none, some, arith, ltb, if◌then◌else◌, Bool-cases, inl, inr,
}
use katapult.Base.Lists.{length, take, drop, slice, is_nil}
use katapult.Base.Slices.{drop-slice, take-slice, length-slice}
use katapult.Base.Text.{Text, strip, join}
use katapult.Document.Content.Emit.{Scoped, trim_start, trim_end, emit, cut}

-- The numbers of a first and a last line of the artifact, and the stripped text between them.
abbrev pub IsExcerpt : List Text → Scoped → Type 0
IsExcerpt lines (text, (first, last)) =
    (1 ≤ first)
    × (first ≤ last)
    × (last ≤ length lines)
    × (text ≡ strip (join (10 ∷ []) (slice (first - 1) last lines)))
    × (text ≢ [])

trim_start-drop :
    (xs : List Text) (i : ℕ) → (k : ℕ) × (trim_start xs i ≡ (drop k xs, i + k)) × (k ≤ length xs)
unfolding trim_start
trim_start-drop [] i = (0, ap (λ n. ([], n)) (omega arith), omega arith)
trim_start-drop (l ∷ xs) i = elim (Bool-cases (is_nil (strip l))) [
  | inl e ↦
      let (k, p, h) = trim_start-drop xs (i + 1) in
      (suc k, rw e (p ∙ ap (λ n. (drop k xs, n)) (omega arith)), omega arith)
  | inr e ↦ (0, rw e (ap (λ n. (l ∷ xs, n)) (omega arith)), omega arith)
]

nil-length : (xs : List Text) → is_nil xs ≡ true → length xs ≡ 0
nil-length [] h = refl
nil-length (x ∷ xs) h = cc

trim_end-length : (xs : List Text) → length (trim_end xs).0 + (trim_end xs).1 ≡ length xs
unfolding trim_end
trim_end-length [] = refl
trim_end-length (l ∷ xs) =
    let ih = trim_end-length xs in
    elim (Bool-cases (is_nil (trim_end xs).0 && is_nil (strip l))) [
      | inl e ↦ let z = nil-length (trim_end xs).0 (ground arith) in rw e (omega arith)
      | inr e ↦ rw e (omega arith)
    ]

trim_end-take : (xs : List Text) → (trim_end xs).0 ≡ take (length (trim_end xs).0) xs
unfolding trim_end
trim_end-take [] = refl
trim_end-take (l ∷ xs) = elim (Bool-cases (is_nil (trim_end xs).0 && is_nil (strip l))) [
  | inl e ↦ rw e refl
  | inr e ↦ rw e (ap (◌∷◌ l) (trim_end-take xs))
]

-- What is left of a slice is a slice.
kept-slice :
    (lines : List Text) (a b k : ℕ)
    → b ≤ length lines
    → a + k ≤ b
    → (m : ℕ) × (r : ℕ) × (trim_end (drop k (slice a b lines))
        ≡ (slice (a + k) (a + k + m) lines, r))
      × (m + r ≡ b - (a + k))
kept-slice lines a b k h g =
    let xs = slice (a + k) b lines in
    let m = length (trim_end xs).0 in
    let len = trim_end-length xs in
    let all = length-slice (a + k) b lines h in
    (
      m,
      (trim_end xs).1,
      rw (drop-slice k a b lines) (
          ap (λ ys. (ys, (trim_end xs).1))
            (trim_end-take xs ∙ take-slice m (a + k) b lines (omega arith))),
      omega arith,
    )

text-first :
    (text : Text) (first last : ℕ) (r : Scoped)
    → (if is_nil text then none else some (text, (first, last))) ≡ some r
    → ((text, (first, last)) ≡ r) × (text ≢ [])
text-first [] first last r h = cc
text-first (c ∷ text) first last r h = (ground arith, λ e. absurd (cc))

abbrev text_of : List Text → Text
text_of kept = strip (join (10 ∷ []) kept)

abbrev excerpt : List Text → ℕ → ℕ → Option Scoped
excerpt kept first last = if is_nil (text_of kept) then none else some (text_of kept, (first, last))

emit-excerpt :
    (xs front kept : List Text) (a b i n : ℕ)
    → trim_start xs a ≡ (front, i)
    → trim_end front ≡ (kept, n)
    → emit xs a b ≡ excerpt kept (i + 1) ((b - n) + 1)
unfolding emit
emit-excerpt xs front kept a b i n p s = rw (p, s) refl

excerpt-none :
    (lines : List Text) (i first last : ℕ) → excerpt (slice i (i + 0) lines) first last ≡ none
unfolding join strip
excerpt-none lines i first last = let z : i + 0 - i ≡ 0 = omega arith in rw z refl

-- The lines from one number on, so many as are kept.
excerpt-IsExcerpt :
    (lines : List Text) (i m last : ℕ) (r : Scoped)
    → i + suc m ≡ last
    → last ≤ length lines
    → excerpt (slice i (i + suc m) lines) (i + 1) last ≡ some r
    → IsExcerpt lines r
excerpt-IsExcerpt lines i m last r h g e =
    let (same, full) = text-first (text_of (slice i (i + suc m) lines)) (i + 1) last r e in
    let z : i + 1 - 1 ≡ i = omega arith in
    subst (IsExcerpt lines) same (omega arith, omega arith, g, rw (z, ← h) refl, full)

emit-IsExcerpt :
    (lines : List Text) (a b : ℕ) (r : Scoped)
    → b < length lines
    → a ≤ b
    → emit (slice a (b + 1) lines) a b ≡ some r
    → IsExcerpt lines r
emit-IsExcerpt lines a b r h g e =
    let (k, p, q) = trim_start-drop (slice a (b + 1) lines) a in
    let len = length-slice a (b + 1) lines (omega arith) in
    let (m, n, s, l) = kept-slice lines a (b + 1) k (omega arith) (omega arith) in
    let same = emit-excerpt (slice a (b + 1) lines) _ _ a b (a + k) n p s in
    emitted k m n (omega arith) l (sym same ∙ e)
  where
    emitted :
        (k m n : ℕ)
        → a + k ≤ b + 1
        → m + n ≡ b + 1 - (a + k)
        → excerpt (slice (a + k) (a + k + m) lines) (a + k + 1) ((b - n) + 1) ≡ some r
        → IsExcerpt lines r
    emitted k zero n c l e =
        absurd (ground (arith, excerpt-none lines (a + k) (a + k + 1) ((b - n) + 1)))
    emitted k (suc m) n c l e = excerpt-IsExcerpt lines (a + k) m _ r (omega arith) (omega arith) e

pub cut-IsExcerpt :
    (lines : List Text) (start end : ℕ) (r : Scoped)
    → end < length lines
    → cut lines start end ≡ some r
    → IsExcerpt lines r
cut-IsExcerpt lines start end r h e = elim (Bool-cases (ltb end start)) [
  | inl l ↦ let gone : cut lines start end ≡ none = unfold cut in rw l refl in absurd (cc)
  | inr l ↦
      let same : cut lines start end ≡ emit (slice start (end + 1) lines) start end =
        unfold cut in rw l refl in
      emit-IsExcerpt lines start end r h (ground arith) (sym same ∙ e)
]
