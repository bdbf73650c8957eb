-- ===== src/Regex/Laws.antt =====
-- Matches of the patterns and the text that they split.
use katapult.Base.{
  ℕ, ◌-◌, ◌≡◌, refl, ap, ◌∙◌, subst, Bool, true, false, ◌&&◌, List, [], ◌∷◌, ◌++◌, map, Option,
  some, ◌==◌, if◌then◌else◌,
}
use mathlib.Core.List.{append_assoc}
use katapult.Base.Lists.{All, All-append, concat, is_nil}
use katapult.Base.Text.{Text}
use katapult.Regex.Defs.{
  Regex, chr, lit, seq, alt, group, rep, not_ahead, eos, Match, push, joined, capture, reps, lits,
  chars, at_end, more_left, one_less, match_all, match_start, first,
}

-- The match and what follows it make up the text.
abbrev pub Splits : Text → Match → Type 0
Splits s m = m.matched ++ m.rest ≡ s

All-push :
    (c : ℕ) (s : Text) (ms : List Match)
    → All (Splits s) ms
    → All (Splits (c ∷ s)) (map (push c) ms)
All-push c s [] h = tt
All-push c s (m ∷ ms) h = (ap (◌∷◌ c) h.0, All-push c s ms h.1)

All-guard {ℓ} :
    (P : Match → Type ℓ) (b : Bool) (ms : List Match) → All P ms → All P (if b then ms else [])
All-guard P true ms h = h
All-guard P false ms h = tt

reps-Splits :
    (greedy : Bool) (lo : ℕ) (hi : Option ℕ) (p : ℕ → Bool) (s : Text)
    → All (Splits s) (reps greedy lo hi p s)
unfolding reps
reps-Splits greedy lo hi p [] = All-guard _ (lo == 0) _ (refl, tt)
reps-Splits true lo hi p (c ∷ s) =
    All-append _ _ _
      (All-guard _ (p c && more_left hi) _
        (All-push c s _ (reps-Splits true (lo - 1) (one_less hi) p s)))
      (All-guard _ (lo == 0) _ (refl, tt))
reps-Splits false lo hi p (c ∷ s) = All-append _ _ _ (All-guard _ (lo == 0) _ (refl, tt)) (
    All-guard _ (p c && more_left hi) _
      (All-push c s _ (reps-Splits false (lo - 1) (one_less hi) p s)))

lits-Splits : (t s : Text) → All (Splits s) (lits t s)
lits-Splits [] s = (refl, tt)
lits-Splits (d ∷ t) [] = tt
lits-Splits (d ∷ t) (c ∷ s) = All-guard _ (c == d) _ (All-push c s _ (lits-Splits t s))

chars-Splits : (p : ℕ → Bool) (s : Text) → All (Splits s) (chars p s)
chars-Splits p [] = tt
chars-Splits p (c ∷ s) = All-guard _ (p c) _ (refl, tt)

All-capture :
    (n : ℕ) (s : Text) (ms : List Match) → All (Splits s) ms → All (Splits s) (map (capture n) ms)
All-capture n s [] h = tt
All-capture n s (m ∷ ms) h = (h.0, All-capture n s ms h.1)

All-joined :
    (s : Text) (m : Match) (ns : List Match)
    → Splits s m
    → All (Splits m.rest) ns
    → All (Splits s) (map (joined m) ns)
All-joined s m [] h hs = tt
All-joined s m (n ∷ ns) h hs = (
  append_assoc m.matched n.matched n.rest ∙ ap (λ (t : Text). m.matched ++ t) hs.0 ∙ h,
  All-joined s m ns h hs.1,
)

All-seq :
    (s : Text) (next : Text → List Match)
    → ((t : Text) → All (Splits t) (next t))
    → (ms : List Match) → All (Splits s) ms
    → All (Splits s) (concat (map (λ m. map (joined m) (next m.rest)) ms))
All-seq s next h [] hs = tt
All-seq s next h (m ∷ ms) hs =
    All-append _ _ _ (All-joined s m _ hs.0 (h m.rest)) (All-seq s next h ms hs.1)

match_all-Splits : (r : Regex) (s : Text) → All (Splits s) (match_all r s)
unfolding match_all
match_all-Splits (chr p) s = chars-Splits p s
match_all-Splits (lit t) s = lits-Splits t s
match_all-Splits (seq r q) s = All-seq s (match_all q) (match_all-Splits q) _ (match_all-Splits r s)
match_all-Splits (alt r q) s = All-append _ _ _ (match_all-Splits r s) (match_all-Splits q s)
match_all-Splits (group n r) s = All-capture n s _ (match_all-Splits r s)
match_all-Splits (rep greedy lo hi p) s = reps-Splits greedy lo hi p s
match_all-Splits (not_ahead r) s = All-guard _ (is_nil (match_all r s)) _ (refl, tt)
match_all-Splits eos s = All-guard _ (at_end s) _ (refl, tt)

-- Whatever a pattern matches is a prefix of the text, and the rest is what follows it.
pub match_start-Splits :
    (r : Regex) (s : Text) {m : Match} → match_start r s ≡ some m → m.matched ++ m.rest ≡ s
unfolding match_start
match_start-Splits r s e = go (match_all r s) (match_all-Splits r s) e
  where
    go :
        (ms : List Match) {m : Match}
        → All (Splits s) ms
        → first ms ≡ some m
        → m.matched ++ m.rest ≡ s
    go [] h e = cc
    go (n ∷ ms) {m} h e = let same : n ≡ m = cc in subst (Splits s) same h.0
