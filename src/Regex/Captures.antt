-- ===== src/Regex/Captures.antt =====
-- How long the capture of a group is, read off the pattern.
use katapult.Base.{
  ℕ, zero, suc, ◌-◌, ◌≤◌, ◌≡◌, refl, Bool, true, false, ◌&&◌, ◌||◌, List, [], ◌∷◌, ◌++◌, map,
  Option, some, arith, ◌==◌, leb, if◌then◌else◌, Bool-cases, inl, inr,
}
use katapult.Base.Lists.{length, All, All-append, All-map, concat, is_nil}
use katapult.Base.Text.{Text}
use katapult.Regex.Defs.{
  Regex, chr, lit, seq, alt, group, rep, not_ahead, eos, Match, push, joined, capture, reps, lits,
  chars, at_end, more_left, one_less, match_all, match_start, first, captured, nothing,
}

-- Predicates through the lists that the matcher builds.
pub All-over {ℓ κ} :
    {A B : Type ℓ} (P : A → Type κ) (Q : B → Type κ) (f : A → B)
    → ((x : A) → P x → Q (f x))
    → (xs : List A) → All P xs
    → All Q (map f xs)
All-over P Q f h [] p = tt
All-over P Q f h (x ∷ xs) p = (h x p.0, All-over P Q f h xs p.1)

pub All-when {ℓ} :
    {A : Type 0} (P : A → Type ℓ) (b : Bool) (xs : List A) → All P xs → All P (if b then xs else [])
All-when P true xs h = h
All-when P false xs h = tt

pub All-pairs :
    (P Q R : Match → Type 0) (next : Text → List Match)
    → ((m k : Match) → P m → Q k → R (joined m k))
    → ((t : Text) → All Q (next t))
    → (ms : List Match) → All P ms
    → All R (concat (map (λ m. map (joined m) (next m.rest)) ms))
All-pairs P Q R next h q [] p = tt
All-pairs P Q R next h q (m ∷ ms) p =
    All-append R _ _ (All-over Q R (joined m) (λ k. h m k p.0) (next m.rest) (q m.rest))
      (All-pairs P Q R next h q ms p.1)

abbrev pub NoGroups : Match → Type 0
NoGroups m = m.groups ≡ []

-- A repetition matches as often as it says, and captures nothing.
pub reps-NoGroups :
    (g : Bool) (lo : ℕ) (hi : Option ℕ) (p : ℕ → Bool) (s : Text) → All NoGroups (reps g lo hi p s)
unfolding reps
reps-NoGroups g lo hi p [] = All-when _ (lo == 0) _ (refl, tt)
reps-NoGroups g lo hi p (c ∷ s) =
    let go = All-when NoGroups (p c && more_left hi) _ (
      All-over NoGroups NoGroups (push c) (λ m e. e) _
        (reps-NoGroups g (lo - 1) (one_less hi) p s)) in
    let stop = All-when NoGroups (lo == 0) _ (refl, tt) in
    elim (Bool-cases g) [
      | inl e ↦ rw e (All-append NoGroups _ _ go stop)
      | inr e ↦ rw e (All-append NoGroups _ _ stop go)
    ]

pub lits-NoGroups : (t s : Text) → All NoGroups (lits t s)
lits-NoGroups [] s = (refl, tt)
lits-NoGroups (d ∷ t) [] = tt
lits-NoGroups (d ∷ t) (c ∷ s) =
    All-when _ (c == d) _ (All-over NoGroups NoGroups (push c) (λ m e. e) _ (lits-NoGroups t s))

pub chars-NoGroups : (p : ℕ → Bool) (s : Text) → All NoGroups (chars p s)
chars-NoGroups p [] = tt
chars-NoGroups p (c ∷ s) = All-when _ (p c) _ (refl, tt)

abbrev Spans : ℕ → ℕ → Match → Type 0
Spans lo hi m = (lo ≤ length m.matched) × (length m.matched ≤ hi)

longer-Spans :
    (lo hi c : ℕ) (b : Bool) (ms : List Match)
    → All (Spans (lo - 1) (hi - 1)) ms
    → All (Spans lo hi) (if b && more_left (some hi) then map (push c) ms else [])
longer-Spans lo zero c true ms h = tt
longer-Spans lo (suc hi) c true ms h =
    All-over (Spans (lo - 1) (suc hi - 1)) (Spans lo (suc hi)) (push c)
      (λ m e. (omega arith, omega arith)) ms h
longer-Spans lo hi c false ms h = tt

stop-Spans : (lo hi : ℕ) (s : Text) → All (Spans lo hi) (if lo == 0 then nothing s ∷ [] else [])
stop-Spans lo hi s = elim (Bool-cases (lo == 0)) [
  | inl e ↦ rw e ((ground arith, ground arith), tt)
  | inr e ↦ rw e tt
]

reps-Spans :
    (g : Bool) (lo hi : ℕ) (p : ℕ → Bool) (s : Text) → All (Spans lo hi) (reps g lo (some hi) p s)
unfolding reps
reps-Spans g lo hi p [] = stop-Spans lo hi []
reps-Spans true lo hi p (c ∷ s) =
    All-append (Spans lo hi) _ _
      (longer-Spans lo hi c (p c) _ (reps-Spans true (lo - 1) (hi - 1) p s))
      (stop-Spans lo hi (c ∷ s))
reps-Spans false lo hi p (c ∷ s) =
    All-append (Spans lo hi) _ _ (stop-Spans lo hi (c ∷ s))
      (longer-Spans lo hi c (p c) _ (reps-Spans false (lo - 1) (hi - 1) p s))

anything : (ms : List Match) → All (λ m. Unit {0}) ms
anything [] = tt
anything (m ∷ ms) = (tt, anything ms)

module _ (n : ℕ) where
  -- The pattern has no group of the number.
  unfoldable pub is_free : Regex → Bool
  is_free (chr p) = true
  is_free (lit t) = true
  is_free (seq r q) = is_free r && is_free q
  is_free (alt r q) = is_free r && is_free q
  is_free (group i r) = if i == n then false else is_free r
  is_free (rep g lo hi p) = true
  is_free (not_ahead r) = true
  is_free eos = true

  abbrev is_absent : List (ℕ × Text) → Bool
  is_absent [] = true
  is_absent ((i, t) ∷ gs) = if i == n then false else is_absent gs

  abbrev IsAbsent : Match → Type 0
  IsAbsent m = is_absent m.groups ≡ true

  absent-append :
      (a b : List (ℕ × Text)) → is_absent a ≡ true → is_absent b ≡ true → is_absent (a ++ b) ≡ true
  absent-append [] b h k = k
  absent-append ((i, t) ∷ a) b h k = ground (arith, absent-append a b)

  none-IsAbsent : (ms : List Match) → All NoGroups ms → All IsAbsent ms
  none-IsAbsent = All-map IsAbsent (λ m (e : NoGroups m). rw e)

  match_all-IsAbsent : (r : Regex) (s : Text) → is_free r ≡ true → All IsAbsent (match_all r s)
  unfolding match_all is_free
  match_all-IsAbsent (chr p) s h = none-IsAbsent _ (chars-NoGroups p s)
  match_all-IsAbsent (lit t) s h = none-IsAbsent _ (lits-NoGroups t s)
  match_all-IsAbsent (seq r q) s h =
      All-pairs IsAbsent IsAbsent IsAbsent (match_all q)
        (λ m k hm hk. absent-append k.groups m.groups hk hm)
        (λ t. match_all-IsAbsent q t (ground arith)) _ (match_all-IsAbsent r s (ground arith))
  match_all-IsAbsent (alt r q) s h =
      All-append IsAbsent _ _ (match_all-IsAbsent r s (ground arith))
        (match_all-IsAbsent q s (ground arith))
  match_all-IsAbsent (group i r) s h =
      All-over IsAbsent IsAbsent (capture i) (λ m e. ground arith) _
        (match_all-IsAbsent r s (ground arith))
  match_all-IsAbsent (rep g lo hi p) s h = none-IsAbsent _ (reps-NoGroups g lo hi p s)
  match_all-IsAbsent (not_ahead r) s h = All-when _ (is_nil (match_all r s)) _ (refl, tt)
  match_all-IsAbsent eos s h = All-when _ (at_end s) _ (refl, tt)

  module _ (lo hi : ℕ) where
    -- Every match captures the group, with a length between the bounds.
    unfoldable pub is_sized : Regex → Bool
    is_sized (rep g a (some b) p) = leb lo a && leb b hi
    is_sized _ = false

    unfoldable pub is_caught : Regex → Bool
    unfolding is_sized is_free
    is_caught (seq r q) = is_caught q || (is_caught r && is_free q)
    is_caught (alt r q) = is_caught r && is_caught q
    is_caught (group i r) = if i == n then is_sized r else is_caught r
    is_caught _ = false

    abbrev found : List (ℕ × Text) → Bool
    found [] = false
    found ((i, t) ∷ gs) = if i == n then leb lo (length t) && leb (length t) hi else found gs

    abbrev IsFound : Match → Type 0
    IsFound m = found m.groups ≡ true

    found-front : (a b : List (ℕ × Text)) → found a ≡ true → found (a ++ b) ≡ true
    found-front [] b h = cc
    found-front ((i, t) ∷ a) b h = ground (arith, found-front a b)

    found-behind :
        (a b : List (ℕ × Text)) → is_absent a ≡ true → found b ≡ true → found (a ++ b) ≡ true
    found-behind [] b h k = k
    found-behind ((i, t) ∷ a) b h k = ground (arith, found-behind a b)

    sized-Spans : (r : Regex) (s : Text) → is_sized r ≡ true → All (Spans lo hi) (match_all r s)
    unfolding match_all is_sized
    sized-Spans (rep g a (some b) p) s h =
        All-map (Spans lo hi) (λ m (e : Spans a b m). (ground arith, ground arith)) _
          (reps-Spans g a b p s)
    sized-Spans _ s h = cc

    match_all-IsFound : (r : Regex) (s : Text) → is_caught r ≡ true → All IsFound (match_all r s)
    unfolding match_all is_caught
    match_all-IsFound (seq r q) s h = elim (Bool-cases (is_caught q)) [
      | inl e ↦
          All-pairs (λ m. Unit {0}) IsFound IsFound (match_all q)
            (λ m k hm hk. found-front k.groups m.groups hk) (λ t. match_all-IsFound q t e) _
            (anything (match_all r s))
      | inr e ↦
          All-pairs IsFound IsAbsent IsFound (match_all q)
            (λ m k hm hk. found-behind k.groups m.groups hk hm)
            (λ t. match_all-IsAbsent q t (ground arith)) _ (match_all-IsFound r s (ground arith))
    ]
    match_all-IsFound (alt r q) s h =
        All-append IsFound _ _ (match_all-IsFound r s (ground arith))
          (match_all-IsFound q s (ground arith))
    match_all-IsFound (group i r) s h = elim (Bool-cases (i == n)) [
      | inl e ↦
          All-over (Spans lo hi) IsFound (capture i) (λ m k. ground arith) _
            (sized-Spans r s (ground arith))
      | inr e ↦
          All-over IsFound IsFound (capture i) (λ m k. ground arith) _
            (match_all-IsFound r s (ground arith))
    ]
    match_all-IsFound _ s h = cc

    found-captured :
        (gs : List (ℕ × Text))
        → found gs ≡ true
        → (lo ≤ length (captured n gs)) × (length (captured n gs) ≤ hi)
    found-captured [] h = cc
    found-captured ((i, t) ∷ gs) h = ground (arith, found-captured gs)

    -- A pattern that always captures the group within bounds does so in the match that is found.
    pub length-captured :
        (r : Regex) (s : Text) (m : Match)
        → is_caught r ≡ true
        → match_start r s ≡ some m
        → (lo ≤ length (captured n m.groups)) × (length (captured n m.groups) ≤ hi)
    unfolding match_start
    length-captured r s m h e =
        found-captured m.groups (head (match_all r s) (match_all-IsFound r s h) e)
      where
        head : (ms : List Match) → All IsFound ms → first ms ≡ some m → IsFound m
        head [] p q = cc
        head (k ∷ ms) p q = ground (arith, p.0)
