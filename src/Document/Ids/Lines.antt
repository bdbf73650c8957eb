-- ===== src/Document/Ids/Lines.antt =====
-- Where the hits of `scan_cpt_ids` stand.
use mathlib.Core.List.{append-nil}
use katapult.Base.{
  ℕ, zero, suc, ◌+◌, ◌%◌, ◌<◌, ◌≡◌, ◌≢◌, refl, ◌∙◌, Bool, true, false, not, ◌||◌, List, [], ◌∷◌,
  ◌++◌, map, Option, none, some, arith, ◌==◌, if◌then◌else◌, Bool-cases, inl, inr,
}
use katapult.Base.Lists.{take, get_elem?, is_nil, All}
use katapult.Base.Count.{count_by}
use katapult.Base.Text.{Text, strip}
use katapult.Base.Unicode.{Unicode}
use katapult.Regex.{Match, match_start, finditer}
use katapult.Document.Patterns.{id_def_re, id_ref_re, backtick_id_re}
use katapult.Document.Ids.{
  IdHit, is_fence, unbullet, defined, referenced, inline, reference_hits, definition_hits,
  line_hits, ids_from, scan_cpt_ids,
}

-- The hits on the line.
unfoldable pub on_line : ℕ → List IdHit → List IdHit
on_line k [] = []
on_line k (h ∷ hs) = let rest = on_line k hs in if h.line == k then h ∷ rest else rest

on_line-append : (k : ℕ) (a b : List IdHit) → on_line k (a ++ b) ≡ on_line k a ++ on_line k b
unfolding on_line
on_line-append k [] b = refl
on_line-append k (h ∷ a) b = ground (arith, on_line-append k a b)

abbrev pub StandsOn : ℕ → IdHit → Type 0
StandsOn n h = h.line ≡ n

on_line-All : (k : ℕ) (hs : List IdHit) → All (StandsOn k) hs → on_line k hs ≡ hs
unfolding on_line
on_line-All k [] a = refl
on_line-All k (h ∷ hs) a = ground (arith, on_line-All k hs a.1)

on_line_none : (k n : ℕ) (hs : List IdHit) → k ≢ n → All (StandsOn n) hs → on_line k hs ≡ []
unfolding on_line
on_line_none k n [] d a = refl
on_line_none k n (h ∷ hs) d a = ground (arith, on_line_none k n hs d a.1)

abbrev one_if : Bool → ℕ
one_if b = if b then 1 else 0

-- The line at the index is a fence, or an odd number of fences stand above it.
abbrev pub is_hidden : Text → ℕ → Bool
is_hidden raw fences = is_fence raw || fences % 2 == 1

module _ (u : Unicode) where
  inline-StandsOn : (n : ℕ) (ms : List Match) → All (StandsOn n) (map (inline u n) ms)
  unfolding inline
  inline-StandsOn n [] = tt
  inline-StandsOn n (m ∷ ms) = (refl, inline-StandsOn n ms)

  reference_hits-StandsOn :
      (n : ℕ) (raw : Text) (o : Option Match) → All (StandsOn n) (reference_hits u n raw o)
  unfolding reference_hits referenced
  reference_hits-StandsOn n raw (some m) = (refl, tt)
  reference_hits-StandsOn n raw none = inline-StandsOn n (finditer backtick_id_re raw)

  definition_hits-StandsOn :
      (n : ℕ) (raw s : Text) (o : Option Match) → All (StandsOn n) (definition_hits u n raw s o)
  unfolding definition_hits defined
  definition_hits-StandsOn n raw s (some m) = (refl, tt)
  definition_hits-StandsOn n raw s none =
      reference_hits-StandsOn n raw (match_start (id_ref_re u) (unbullet s))

  line_hits-StandsOn : (n : ℕ) (raw : Text) → All (StandsOn n) (line_hits u n raw)
  unfolding line_hits
  line_hits-StandsOn n raw = elim (Bool-cases (is_nil (strip raw))) [
    | inl e ↦ rw e tt
    | inr e ↦
        rw e (definition_hits-StandsOn n raw (strip raw) (match_start (id_def_re u) (strip raw)))
  ]

  -- What one line adds.
  abbrev pub added : ℕ → Bool → Text → List IdHit
  added n f raw = if is_fence raw then [] else if f then [] else line_hits u n raw

  added-StandsOn : (n : ℕ) (f : Bool) (raw : Text) → All (StandsOn n) (added n f raw)
  added-StandsOn n f raw = elim (Bool-cases (is_fence raw)) [
    | inl e ↦ rw e tt
    | inr e ↦
        rw e (elim (Bool-cases f) [ inl g ↦ rw g tt | inr g ↦ rw g (line_hits-StandsOn n raw) ])
  ]

  -- The hits that a line at the index brings, where so many fences stand above it.
  unfoldable pub hits_at : ℕ → ℕ → Option Text → List IdHit
  hits_at n fences none = []
  hits_at n fences (some raw) = if is_hidden raw fences then [] else line_hits u n raw

  on_line_before :
      (k n : ℕ) (f : Bool) (lines : List Text) → k < n → on_line k (ids_from u n f lines) ≡ []
  unfolding ids_from
  on_line_before k n f [] h = unfold on_line in refl
  on_line_before k n f (raw ∷ lines) h =
      on_line-append k (added n f raw) _
      ∙ rw (on_line_none k n (added n f raw) (λ e. absurd (omega arith)) (added-StandsOn n f raw))
          (on_line_before k (n + 1) (if is_fence raw then not f else f) lines (omega arith))

  added-hits_at : (n : ℕ) (f : Bool) (raw : Text) → added n f raw ≡ hits_at n (one_if f) (some raw)
  unfolding hits_at
  added-hits_at n true raw = ground arith
  added-hits_at n false raw = ground arith

  fences_step :
      (raw : Text) (f : Bool) (c : ℕ)
      → (one_if (if is_fence raw then not f else f) + c) % 2
        ≡ (one_if f + (one_if (is_fence raw) + c)) % 2
  fences_step raw true c = ground arith
  fences_step raw false c = ground arith

  hits_at_same : (n a b : ℕ) (o : Option Text) → a % 2 ≡ b % 2 → hits_at n a o ≡ hits_at n b o
  unfolding hits_at
  hits_at_same n a b none h = refl
  hits_at_same n a b (some raw) h = rw h

  on_line-ids_from :
      (i n : ℕ) (f : Bool) (lines : List Text)
      → on_line (n + i) (ids_from u n f lines)
        ≡ hits_at (n + i) (one_if f + count_by is_fence (take i lines)) (get_elem? lines i)
  unfolding ids_from count_by
  on_line-ids_from zero n f [] = unfold on_line hits_at in refl
  on_line-ids_from (suc i) n f [] = unfold on_line hits_at in refl
  on_line-ids_from zero n f (raw ∷ lines) =
      let e : n + 0 ≡ n = omega arith in
      let g : one_if f + 0 ≡ one_if f = omega arith in
      rw (e, g)
        (on_line-append n (added n f raw) _
          ∙ rw
              (
                on_line-All n (added n f raw) (added-StandsOn n f raw),
                on_line_before n (n + 1) (if is_fence raw then not f else f) lines (omega arith),
              )
              (append-nil (added n f raw))
          ∙ added-hits_at n f raw)
  on_line-ids_from (suc i) n f (raw ∷ lines) =
      let e : n + suc i ≡ n + 1 + i = omega arith in
      on_line-append (n + suc i) (added n f raw) _
      ∙ rw
          (
            on_line_none (n + suc i) n (added n f raw) (λ e. absurd (omega arith))
                (added-StandsOn n f raw),
            e,
          )
          (on_line-ids_from i (n + 1) (if is_fence raw then not f else f) lines
            ∙ hits_at_same (n + 1 + i) _ _ (get_elem? lines i)
                (fences_step raw f (count_by is_fence (take i lines))))

  -- On each line, the scan finds what the line holds if it is no fence and an even number of fences
  -- stand above it, and nothing otherwise or behind the end.
  pub scan_cpt_ids-lines :
      (lines : List Text) (i : ℕ)
      → on_line (suc i) (scan_cpt_ids u (some lines))
        ≡ hits_at (suc i) (count_by is_fence (take i lines)) (get_elem? lines i)
  unfolding scan_cpt_ids
  scan_cpt_ids-lines lines i =
      let e : 1 + i ≡ suc i = omega arith in
      let z : 0 + count_by is_fence (take i lines) ≡ count_by is_fence (take i lines) =
        omega arith in
      rw (← e, ← z) (on_line-ids_from i 1 false lines)
