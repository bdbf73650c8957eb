-- ===== src/Regex/Classes.antt =====
-- Which characters the capture of a group holds, read off the pattern.
use katapult.Base.{
  ℕ, zero, suc, ◌-◌, ◌≡◌, refl, Bool, true, not, ◌&&◌, ◌||◌, List, [], ◌∷◌, ◌++◌, map, Option, none,
  some, arith, ◌==◌, if◌then◌else◌, Bool-cases, inl, inr,
}
use katapult.Base.Lists.{length, All, All-append, All-map, all, is_nil}
use katapult.Base.Text.{Text}
use katapult.Regex.Defs.{
  Regex, chr, lit, seq, alt, group, rep, not_ahead, eos, Match, push, capture, reps, lits, chars,
  at_end, more_left, one_less, match_all, match_start, first, captured, finditer_from, finditer,
}
use katapult.Regex.Captures.{
  All-over, All-when, All-pairs, NoGroups, reps-NoGroups, lits-NoGroups, chars-NoGroups,
}

module _ (q : ℕ → Bool) where
  -- The pattern matches characters of the class only.
  abbrev pub IsOver : Regex → Type 0
  IsOver (chr p) = (c : ℕ) → p c ≡ true → q c ≡ true
  IsOver (lit t) = all q t ≡ true
  IsOver (seq r s) = IsOver r × IsOver s
  IsOver (alt r s) = IsOver r × IsOver s
  IsOver (group i r) = IsOver r
  IsOver (rep g lo hi p) = (c : ℕ) → p c ≡ true → q c ≡ true
  IsOver (not_ahead r) = Unit
  IsOver eos = Unit

  abbrev IsMade : Match → Type 0
  IsMade m = all q m.matched ≡ true

  pub all-append : (s t : Text) → all q s ≡ true → all q t ≡ true → all q (s ++ t) ≡ true
  unfolding all
  all-append [] t h k = k
  all-append (c ∷ s) t h k = ground (arith, all-append s t)

  push-IsMade :
      (c : ℕ) (ms : List Match) → q c ≡ true → All IsMade ms → All IsMade (map (push c) ms)
  unfolding all
  push-IsMade c ms e h = All-over IsMade IsMade (push c) (λ m k. ground arith) ms h

  reps-IsMade :
      (g : Bool) (lo : ℕ) (hi : Option ℕ) (p : ℕ → Bool) (s : Text)
      → ((c : ℕ) → p c ≡ true → q c ≡ true)
      → All IsMade (reps g lo hi p s)
  unfolding reps all
  reps-IsMade g lo hi p [] h = All-when IsMade (lo == 0) _ (refl, tt)
  reps-IsMade g lo hi p (c ∷ s) h =
      let stop = All-when IsMade (lo == 0) _ (refl, tt) in
      let longer = reps-IsMade g (lo - 1) (one_less hi) p s h in
      let go : All IsMade
          (if p c && more_left hi then map (push c) (reps g (lo - 1) (one_less hi) p s) else []) =
        elim (Bool-cases (p c)) [
          | inl e ↦ All-when IsMade (p c && more_left hi) _ (push-IsMade c _ (h c e) longer)
          | inr e ↦ rw e tt
        ] in
      elim (Bool-cases g) [
        | inl e ↦ rw e (All-append IsMade _ _ go stop)
        | inr e ↦ rw e (All-append IsMade _ _ stop go)
      ]

  lits-IsMade : (t s : Text) → all q t ≡ true → All IsMade (lits t s)
  unfolding all
  lits-IsMade [] s h = (refl, tt)
  lits-IsMade (d ∷ t) [] h = tt
  lits-IsMade (d ∷ t) (c ∷ s) h = elim (Bool-cases (c == d)) [
    | inl e ↦ rw e (
        push-IsMade c (lits t s) (let same : c ≡ d = ground arith in rw same (ground arith))
          (lits-IsMade t s (ground arith)))
    | inr e ↦ rw e tt
  ]

  chars-IsMade :
      (p : ℕ → Bool) (s : Text) → ((c : ℕ) → p c ≡ true → q c ≡ true) → All IsMade (chars p s)
  unfolding all
  chars-IsMade p [] h = tt
  chars-IsMade p (c ∷ s) h = elim (Bool-cases (p c)) [
    | inl e ↦ rw e ((rw (h c e) refl), tt)
    | inr e ↦ rw e tt
  ]

  match_all-IsMade : (r : Regex) (s : Text) → IsOver r → All IsMade (match_all r s)
  unfolding match_all all
  match_all-IsMade (chr p) s h = chars-IsMade p s h
  match_all-IsMade (lit t) s h = lits-IsMade t s h
  match_all-IsMade (seq r r') s h =
      All-pairs IsMade IsMade IsMade (match_all r')
        (λ m k hm hk. all-append m.matched k.matched hm hk) (λ t. match_all-IsMade r' t h.1) _
        (match_all-IsMade r s h.0)
  match_all-IsMade (alt r r') s h =
      All-append IsMade _ _ (match_all-IsMade r s h.0) (match_all-IsMade r' s h.1)
  match_all-IsMade (group i r) s h =
      All-over IsMade IsMade (capture i) (λ m e. e) _ (match_all-IsMade r s h)
  match_all-IsMade (rep g lo hi p) s h = reps-IsMade g lo hi p s h
  match_all-IsMade (not_ahead r) s h = All-when IsMade (is_nil (match_all r s)) _ (refl, tt)
  match_all-IsMade eos s h = All-when IsMade (at_end s) _ (refl, tt)

  module _ (n : ℕ) where
    -- Wherever the group stands, it matches characters of the class only.
    abbrev pub Catches : Regex → Type 0
    Catches (seq r s) = Catches r × Catches s
    Catches (alt r s) = Catches r × Catches s
    Catches (group i r) = (i == n ≡ true → IsOver r) × Catches r
    Catches _ = Unit

    abbrev is_clear : List (ℕ × Text) → Bool
    is_clear gs = all (λ e. not (e.0 == n) || all q e.1) gs

    abbrev IsClear : Match → Type 0
    IsClear m = is_clear m.groups ≡ true

    clear-append :
        (a b : List (ℕ × Text)) → is_clear a ≡ true → is_clear b ≡ true → is_clear (a ++ b) ≡ true
    unfolding all
    clear-append [] b h k = k
    clear-append (e ∷ a) b h k = ground (arith, clear-append a b)

    plain-IsClear : (ms : List Match) → All NoGroups ms → All IsClear ms
    unfolding all
    plain-IsClear = All-map IsClear (λ m (e : NoGroups m). rw e refl)

    capture-IsClear :
        (i : ℕ) (ms : List Match)
        → (i == n ≡ true → All IsMade ms)
        → All IsClear ms
        → All IsClear (map (capture i) ms)
    unfolding all
    capture-IsClear i [] f h = tt
    capture-IsClear i (m ∷ ms) f h = (
      elim (Bool-cases (i == n)) [
        | inl e ↦ let made : IsMade m = (f e).0 in ground (arith, made, h.0)
        | inr e ↦ ground (arith, h.0)
      ],
      capture-IsClear i ms (λ e. (f e).1) h.1,
    )

    match_all-IsClear : (r : Regex) (s : Text) → Catches r → All IsClear (match_all r s)
    unfolding match_all
    match_all-IsClear (chr p) s h = plain-IsClear _ (chars-NoGroups p s)
    match_all-IsClear (lit t) s h = plain-IsClear _ (lits-NoGroups t s)
    match_all-IsClear (seq r r') s h =
        All-pairs IsClear IsClear IsClear (match_all r')
          (λ m k hm hk. clear-append k.groups m.groups hk hm) (λ t. match_all-IsClear r' t h.1) _
          (match_all-IsClear r s h.0)
    match_all-IsClear (alt r r') s h =
        All-append IsClear _ _ (match_all-IsClear r s h.0) (match_all-IsClear r' s h.1)
    match_all-IsClear (group i r) s h =
        capture-IsClear i (match_all r s) (λ e. match_all-IsMade r s (h.0 e))
          (match_all-IsClear r s h.1)
    match_all-IsClear (rep g lo hi p) s h = plain-IsClear _ (reps-NoGroups g lo hi p s)
    match_all-IsClear (not_ahead r) s h =
        plain-IsClear _ (All-when NoGroups (is_nil (match_all r s)) _ (refl, tt))
    match_all-IsClear eos s h = plain-IsClear _ (All-when NoGroups (at_end s) _ (refl, tt))

    clear-captured : (gs : List (ℕ × Text)) → is_clear gs ≡ true → all q (captured n gs) ≡ true
    unfolding all
    clear-captured [] h = refl
    clear-captured ((i, t) ∷ gs) h = ground (arith, clear-captured gs)

    finditer_from-IsClear :
        (r : Regex) (skip : ℕ) (s : Text) → Catches r → All IsClear (finditer_from r skip s)
    unfolding finditer_from match_start
    finditer_from-IsClear r skip [] h = tt
    finditer_from-IsClear r (suc skip) (c ∷ s) h = finditer_from-IsClear r skip s h
    finditer_from-IsClear r zero (c ∷ s) h =
        found (finditer_from-IsClear r zero s h) (λ k. finditer_from-IsClear r k s h)
          (match_all r (c ∷ s)) (match_all-IsClear r (c ∷ s) h)
      where
        found :
            All IsClear (finditer_from r zero s)
            → ((k : ℕ) → All IsClear (finditer_from r k s))
            → (ms : List Match) → All IsClear ms
            → All IsClear (elim (first ms) [
              | none ↦ finditer_from r zero s
              | some m ↦ m ∷ finditer_from r (length m.matched - 1) s
            ])
        found now later [] k = now
        found now later (m ∷ ms) k = (k.0, later (length m.matched - 1))

    -- Every match that is found captures only characters of the class in the group.
    pub finditer-captured :
        (r : Regex) (s : Text)
        → Catches r
        → All (λ (m : Match). all q (captured n m.groups) ≡ true) (finditer r s)
    unfolding finditer
    finditer-captured r s h =
        All-map _ (λ m e. clear-captured m.groups e) (finditer r s)
          (finditer_from-IsClear r zero s h)
