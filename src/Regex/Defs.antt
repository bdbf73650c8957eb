-- ===== src/Regex/Defs.antt =====
-- Patterns, matches, and the functions `match`, `fullmatch`, `finditer` and `sub`.
use katapult.Base.{
  ℕ, zero, suc, ◌-◌, Bool, true, false, ◌&&◌, ◌||◌, List, [], ◌∷◌, ◌++◌, map, Option, none, some,
  ◌==◌, if◌then◌else◌,
}
use katapult.Base.Lists.{length, is_nil, concat}
use katapult.Base.Text.{Text}

pub data Regex : Type 0 where
  -- one character of a class
  chr : (ℕ → Bool) → Regex
  -- these characters
  lit : Text → Regex
  seq : Regex → Regex → Regex
  alt : Regex → Regex → Regex
  -- the group with this number
  group : ℕ → Regex → Regex
  -- `[class]{lo,hi}`, greedy or lazy; no upper bound is `none`
  rep : Bool → ℕ → Option ℕ → (ℕ → Bool) → Regex
  -- `(?!…)`
  not_ahead : Regex → Regex
  -- `$`
  eos : Regex

abbrev pub char_in : Text → ℕ → Bool
char_in [] c = false
char_in (d ∷ ds) c = c == d || char_in ds c

abbrev pub plus : (ℕ → Bool) → Regex
plus = rep true 1 none

abbrev pub star : (ℕ → Bool) → Regex
star = rep true 0 none

abbrev pub plus_lazy : (ℕ → Bool) → Regex
plus_lazy = rep false 1 none

abbrev pub between : ℕ → ℕ → (ℕ → Bool) → Regex
between lo hi = rep true lo (some hi)

abbrev pub at_least : ℕ → (ℕ → Bool) → Regex
at_least lo = rep true lo none

-- What is matched, what follows it, and the groups that have matched, the last one first.
pub record Match : Type 0 where
  pub matched : Text
  pub rest : Text
  pub groups : List (ℕ × Text)

abbrev pub more_left : Option ℕ → Bool
more_left none = true
more_left (some zero) = false
more_left (some (suc n)) = true

abbrev pub one_less : Option ℕ → Option ℕ
one_less none = none
one_less (some n) = some (n - 1)

abbrev pub push : ℕ → Match → Match
push c m = record m { matched = c ∷ m.matched }

abbrev pub nothing : Text → Match
nothing s = record { matched = []; rest = s; groups = [] }

unfoldable pub reps : Bool → ℕ → Option ℕ → (ℕ → Bool) → Text → List Match
reps greedy lo hi p [] = if lo == 0 then nothing [] ∷ [] else []
reps greedy lo hi p (c ∷ s) =
    let longer = map (push c) (reps greedy (lo - 1) (one_less hi) p s) in
    let go = if p c && more_left hi then longer else [] in
    let stop = if lo == 0 then nothing (c ∷ s) ∷ [] else [] in
    if greedy then go ++ stop else stop ++ go

abbrev pub lits : Text → Text → List Match
lits [] s = nothing s ∷ []
lits (d ∷ ds) [] = []
lits (d ∷ ds) (c ∷ s) = if c == d then map (push c) (lits ds s) else []

-- Joins a match of the first part with one of the second.
abbrev pub joined : Match → Match → Match
joined m n = record {
  matched = m.matched ++ n.matched;
  rest = n.rest;
  groups = n.groups ++ m.groups;
}

abbrev pub chars : (ℕ → Bool) → Text → List Match
chars p [] = []
chars p (c ∷ s) = if p c then push c (nothing s) ∷ [] else []

abbrev pub capture : ℕ → Match → Match
capture n m = record m { groups = (n, m.matched) ∷ m.groups }

-- At the end, or before a newline that ends the text.
abbrev pub at_end : Text → Bool
at_end [] = true
at_end (c ∷ s) = c == 10 && is_nil s

-- All matches at the start of the text, in the order in which `re` tries them.
unfoldable pub match_all : Regex → Text → List Match
unfolding reps
match_all (chr p) s = chars p s
match_all (lit t) s = lits t s
match_all (seq r q) s = concat (map (λ m. map (joined m) (match_all q m.rest)) (match_all r s))
match_all (alt r q) s = match_all r s ++ match_all q s
match_all (group n r) s = map (capture n) (match_all r s)
match_all (rep greedy lo hi p) s = reps greedy lo hi p s
match_all (not_ahead r) s = if is_nil (match_all r s) then nothing s ∷ [] else []
match_all eos s = if at_end s then nothing s ∷ [] else []

abbrev pub first : List Match → Option Match
first [] = none
first (m ∷ ms) = some m

-- `r.match(s)`
unfoldable pub match_start : Regex → Text → Option Match
unfolding match_all
match_start r s = first (match_all r s)

abbrev pub whole : List Match → Bool
whole [] = false
whole (m ∷ ms) = is_nil m.rest || whole ms

-- `r.fullmatch(s) is not None`
unfoldable pub fullmatch : Regex → Text → Bool
unfolding match_all
fullmatch r s = whole (match_all r s)

-- `m.group(n)`; a group that took no part is empty here.
abbrev pub captured : ℕ → List (ℕ × Text) → Text
captured n [] = []
captured n ((i, t) ∷ gs) = if i == n then t else captured n gs

-- Matches from left to right that do not overlap, for patterns that match no empty text. The
-- number counts the characters of the last match that are still to be passed.
unfoldable pub finditer_from : Regex → ℕ → Text → List Match
unfolding match_start
finditer_from r skip [] = []
finditer_from r (suc skip) (c ∷ s) = finditer_from r skip s
finditer_from r zero (c ∷ s) = elim (match_start r (c ∷ s)) [
  | none ↦ finditer_from r zero s
  | some m ↦ m ∷ finditer_from r (length m.matched - 1) s
]

-- `r.finditer(s)`
unfoldable pub finditer : Regex → Text → List Match
unfolding finditer_from
finditer r s = finditer_from r zero s

-- `r.sub(f, s)`, for patterns that match no empty text.
unfoldable pub sub_from : Regex → (Match → Text) → ℕ → Text → Text
unfolding match_start
sub_from r f skip [] = []
sub_from r f (suc skip) (c ∷ s) = sub_from r f skip s
sub_from r f zero (c ∷ s) = elim (match_start r (c ∷ s)) [
  | none ↦ c ∷ sub_from r f zero s
  | some m ↦ f m ++ sub_from r f (length m.matched - 1) s
]

unfoldable pub sub : Regex → (Match → Text) → Text → Text
unfolding sub_from
sub r f s = sub_from r f zero s

-- The length of the longest run of characters of a class at the start.
unfoldable pub run_length : (ℕ → Bool) → Text → ℕ
run_length p [] = 0
run_length p (c ∷ s) = let rest = run_length p s in if p c then suc rest else 0
