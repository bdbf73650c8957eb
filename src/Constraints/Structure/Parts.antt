-- ===== src/Constraints/Structure/Parts.antt =====
-- What it means that a loop over the references reports nothing of one id.
use katapult.Base.{
  ◌≡◌, refl, ◌∙◌, sym, ◌↔◌, Bool, true, false, not, ◌&&◌, ◌||◌, List, [], ◌∷◌, ◌++◌, map, arith,
  if◌then◌else◌,
}
use katapult.Base.Lists.{is_nil, all}
use katapult.Base.Text.{Text}
use katapult.Issue.{Issue}
use katapult.Constraints.Index.{Row}
use katapult.Constraints.Structure.{
  no_definition_error, not_done, not_done_rows, with_task, unchecked_rows, defs_done_at, any_task,
  untracked_rows,
}

abbrev pub same : Bool → Bool → Bool
same a b = if a then b else not b

-- All definitions that are tracked as tasks are done.
abbrev pub is_done : List Row → Bool
is_done ds = all (λ d. d.checked) (with_task ds)

-- A reference that is tracked as a task, to an id with definitions: one of them is tracked too, and
-- the reference is done exactly when all of those are.
unfoldable pub is_settled : List Row → Row → Bool
unfolding any_task
is_settled ds r = not r.has_task || (is_nil ds || (any_task ds && same r.checked (is_done ds)))

pub is_nil-append : (a b : List Issue) → is_nil (a ++ b) ≡ (is_nil a && is_nil b)
is_nil-append [] b = refl
is_nil-append (x ∷ a) b = refl

pub all_and :
    {A : Type 0} (p q : A → Bool) (xs : List A) → (all p xs && all q xs) ≡ all (λ x. p x && q x) xs
unfolding all
all_and p q [] = refl
all_and p q (x ∷ xs) = ground (arith, all_and p q xs)

pub all_same :
    {A : Type 0} (p q : A → Bool) (xs : List A) → ((x : A) → p x ≡ q x) → all p xs ≡ all q xs
unfolding all
all_same p q [] h = refl
all_same p q (x ∷ xs) h = rw (h x, all_same p q xs h) refl

not_done_nil : (rid : Text) (r : Row) (ds : List Row) → is_nil (not_done rid r ds) ≡ is_done ds
unfolding not_done with_task all
not_done_nil rid r [] = refl
not_done_nil rid r (d ∷ ds) = ground (arith, not_done_nil rid r ds)

pub not_done_rows_nil :
    (rid : Text) (ds rows : List Row)
    → is_nil (not_done_rows rid ds rows)
      ≡ all (λ r. not (r.has_task && r.checked) || is_done ds) rows
unfolding not_done_rows all
not_done_rows_nil rid ds [] = refl
not_done_rows_nil rid ds (r ∷ rows) =
    is_nil-append (if r.has_task && r.checked then not_done rid r ds else []) _
    ∙ ground (arith, not_done_nil rid r ds, not_done_rows_nil rid ds rows)

unchecked_rows_nil :
    (rid : Text) (tasked rows : List Row)
    → is_nil (unchecked_rows rid tasked rows) ≡ all (λ r. not (r.has_task && not r.checked)) rows
unfolding unchecked_rows all
unchecked_rows_nil rid tasked [] = refl
unchecked_rows_nil rid tasked (r ∷ rows) = ground (arith, unchecked_rows_nil rid tasked rows)

untracked_rows_nil :
    (rid : Text) (ds rows : List Row)
    → is_nil (untracked_rows rid ds rows) ≡ all (λ r. not (r.has_task && not (any_task ds))) rows
unfolding untracked_rows all
untracked_rows_nil rid ds [] = refl
untracked_rows_nil rid ds (r ∷ rows) = ground (arith, untracked_rows_nil rid ds rows)

with_task_nil : (ds : List Row) → is_nil (with_task ds) ≡ not (any_task ds)
unfolding with_task any_task
with_task_nil [] = refl
with_task_nil (d ∷ ds) = ground (arith, with_task_nil ds)

all_holds : {A : Type 0} (xs : List A) → all (λ x. true) xs ≡ true
unfolding all
all_holds [] = refl
all_holds (x ∷ xs) = all_holds xs

-- A test that does not read the element, in front of one that does.
all_or :
    {A : Type 0} (b : Bool) (p : A → Bool) (xs : List A) → (b || all p xs) ≡ all (λ x. b || p x) xs
all_or true p xs = sym (all_holds xs)
all_or false p xs = refl

skipped_nil :
    (a b c : Bool) (xs : List Issue)
    → is_nil (if a then [] else if b then [] else if not c then [] else xs)
      ≡ ((a || (b || not c)) || is_nil xs)
skipped_nil true b c xs = refl
skipped_nil false true c xs = refl
skipped_nil false false true xs = refl
skipped_nil false false false xs = refl

-- The loop over a done definition says nothing of the reference.
abbrev pub is_undone : List Row → Row → Bool
is_undone ds r =
    (is_nil ds || (not (any_task ds) || not (is_done ds))) || not (r.has_task && not r.checked)

pub defs_done_nil :
    (rid : Text) (ds rows : List Row) → is_nil (defs_done_at rid ds rows) ≡ all (is_undone ds) rows
unfolding defs_done_at
defs_done_nil rid ds rows =
    skipped_nil (is_nil ds) (is_nil (with_task ds)) (is_done ds)
      (unchecked_rows rid (with_task ds) rows)
    ∙ rw (unchecked_rows_nil rid (with_task ds) rows, with_task_nil ds)
        (all_or (is_nil ds || (not (any_task ds) || not (is_done ds))) _ rows)

abbrev pub is_tracked : List Row → Row → Bool
is_tracked ds r = is_nil ds || not (r.has_task && not (any_task ds))

pub untracked_nil :
    (rid : Text) (ds rows : List Row)
    → is_nil (if is_nil ds then [] else untracked_rows rid ds rows) ≡ all (is_tracked ds) rows
untracked_nil rid ds rows =
    skipped (is_nil ds) (untracked_rows rid ds rows)
    ∙ rw (untracked_rows_nil rid ds rows) (all_or (is_nil ds) _ rows)
  where
    skipped : (a : Bool) (xs : List Issue) → is_nil (if a then [] else xs) ≡ (a || is_nil xs)
    skipped true xs = refl
    skipped false xs = refl

pub undefined_nil :
    (b : Bool) (rid : Text) (rows : List Row)
    → is_nil (if b then [] else map (no_definition_error rid) rows) ≡ all (λ r. b) rows
unfolding all
undefined_nil true rid [] = refl
undefined_nil true rid (r ∷ rows) = undefined_nil true rid rows
undefined_nil false rid [] = refl
undefined_nil false rid (r ∷ rows) = refl

abbrev pub is_undone_ref : List Row → Row → Bool
is_undone_ref ds r = not (r.has_task && r.checked) || is_done ds

no_task-done : (ds : List Row) → any_task ds ≡ false → is_done ds ≡ true
unfolding any_task with_task all
no_task-done [] h = refl
no_task-done (d ∷ ds) h = ground (arith, no_task-done ds)

no_rows-task : (ds : List Row) → is_nil ds ≡ true → any_task ds ≡ false
unfolding any_task
no_rows-task [] h = refl
no_rows-task (d ∷ ds) h = cc

-- The three tests of the later loops together are the one.
pub settled_parts :
    (ds : List Row) (r : Row)
    → (is_undone_ref ds r && (is_undone ds r && is_tracked ds r)) ≡ is_settled ds r
unfolding is_settled
settled_parts ds r =
    cases r.has_task r.checked (is_nil ds) (any_task ds) (is_done ds) (no_task-done ds)
      (no_rows-task ds)
  where
    cases :
        (t c n a d : Bool)
        → (a ≡ false → d ≡ true)
        → (n ≡ true → a ≡ false)
        → ((not (t && c) || d)
            && (((n || (not a || not d)) || not (t && not c)) && (n || not (t && not a))))
          ≡ (not t || (n || (a && same c d)))
    cases t c n a d f g = ground (arith, f, g)

pub nil_iff : (xs : List Issue) (b : Bool) → is_nil xs ≡ b → (xs ≡ []) ↔ (b ≡ true)
nil_iff [] b e = (λ h. sym e, λ h. refl)
nil_iff (x ∷ xs) b e = (λ h. absurd (cc), λ h. absurd (cc))
