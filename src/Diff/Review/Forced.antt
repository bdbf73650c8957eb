-- ===== src/Diff/Review/Forced.antt =====
-- What a forced or automatically approved update installs.
use katapult.Base.{
  ◌≡◌, refl, ◌∙◌, ap, Bool, true, false, ◌||◌, List, [], ◌∷◌, ◌++◌, Option, none, some,
  if◌then◌else◌,
}
use katapult.Base.Lists.{All}
use katapult.Base.Text.{Text, text_eq_same}
use katapult.Base.Dict.{lookup, lookup-insert}
use katapult.Base.Unicode.{Unicode}
use katapult.Diff.Codec.{Bytes, Codec}
use katapult.Diff.Merge.{Opcodes}
use katapult.Diff.Review.{
  ChangeType, added, removed, modified, accepted, Update, Session, dest_of, apply_change, decide,
  carry_out, carried, review_file, review_loop, bytes_or, add_entry,
}
use katapult.Diff.Review.Frame.{review_loop-frame}

abbrev pub is_installed : ChangeType → Bool
is_installed removed = false
is_installed _ = true

module _ (u : Unicode) (c : Codec) (opcodes : Opcodes) (k : Update) where
  -- The file accepted as the source has it.
  unfoldable accept_file : Text → ChangeType → Session → Session
  accept_file p t s =
      let noted = add_entry t (record { path = p; action = accepted }) s in
      let raw = bytes_or [] (lookup p k.source_files) in
      record noted { files = apply_change t accepted (dest_of k p) raw raw noted.files }

  carry_out-accepted :
      (p : Text) (t : ChangeType) (new : Bytes) (s : Session)
      → k.dry_run ≡ false
      → carry_out u c opcodes k p t (accepted, new, s) ≡ accept_file p t s
  unfolding carry_out accept_file apply_change
  carry_out-accepted p added new s e = rw e refl
  carry_out-accepted p removed new s e = rw e refl
  carry_out-accepted p modified new s e = rw e refl

  decide-forced :
      (old new : Bytes) (s : Session)
      → (k.force || k.auto_approve) ≡ true
      → decide u c opcodes k old new s ≡ some (accepted, new, s)
  unfolding decide
  decide-forced old new s e = rw e refl

  review_file-forced :
      (p : Text) (t : ChangeType) (s : Session)
      → (k.force || k.auto_approve) ≡ true
      → k.dry_run ≡ false
      → review_file u c opcodes k p t s ≡ some (accept_file p t s)
  unfolding review_file carried
  review_file-forced p t s e h =
      ap (carried u c opcodes k p t) (decide-forced _ _ s e)
      ∙ ap (λ (x : Session). some x) (carry_out-accepted p t _ s h)

  stopped-accept_file :
      (p : Text) (t : ChangeType) (s : Session) → (accept_file p t s).stopped ≡ s.stopped
  unfolding accept_file
  stopped-accept_file p added s = refl
  stopped-accept_file p removed s = refl
  stopped-accept_file p modified s = refl

  installed-accept_file :
      (p : Text) (t : ChangeType) (s : Session)
      → is_installed t ≡ true
      → lookup (dest_of k p) (accept_file p t s).files
        ≡ some (bytes_or [] (lookup p k.source_files))
  unfolding accept_file apply_change
  installed-accept_file p added s e =
      lookup-insert _ _ _ s.files ∙ rw (text_eq_same (dest_of k p) (dest_of k p) refl) refl
  installed-accept_file p modified s e =
      lookup-insert _ _ _ s.files ∙ rw (text_eq_same (dest_of k p) (dest_of k p) refl) refl
  installed-accept_file p removed s e = absurd (cc)

  step-forced :
      (p : Text) (t : ChangeType) (changed : List (Text × ChangeType)) (s : Session)
      → (k.force || k.auto_approve) ≡ true
      → k.dry_run ≡ false
      → s.stopped ≡ false
      → review_loop u c opcodes k ((p, t) ∷ changed) s
        ≡ review_loop u c opcodes k changed (accept_file p t s)
  unfolding review_loop
  step-forced p t changed s e h n =
      let next : Option Session → Option Session = λ o. elim o [
        | none ↦ none
        | some s' ↦ if s'.stopped then some s' else review_loop u c opcodes k changed s'
      ] in
      ap next (review_file-forced p t s e h)
      ∙ ap
          (λ (b : Bool).
            if b
            then some (accept_file p t s)
            else review_loop u c opcodes k changed (accept_file p t s))
          (stopped-accept_file p t s ∙ n)

  -- The forced loop runs to its end.
  review_loop-ends :
      (changed : List (Text × ChangeType)) (s : Session)
      → (k.force || k.auto_approve) ≡ true
      → k.dry_run ≡ false
      → s.stopped ≡ false
      → (last : Session) × (review_loop u c opcodes k changed s ≡ some last)
  unfolding review_loop
  review_loop-ends [] s e h n = (s, refl)
  review_loop-ends ((p, t) ∷ changed) s e h n =
      let (last, r) =
        review_loop-ends changed (accept_file p t s) e h (stopped-accept_file p t s ∙ n) in
      (last, step-forced p t changed s e h n ∙ r)

  -- With `force` or `auto_approve`, outside a dry run and not stopped, the loop ends, whatever the
  -- input and the runs of the editor, and an added or modified file whose destination is that of no
  -- later one holds at its destination what the source holds under its path.
  pub review_loop-forced :
      (earlier later : List (Text × ChangeType)) (p : Text) (t : ChangeType) (s : Session)
      → (k.force || k.auto_approve) ≡ true
      → k.dry_run ≡ false
      → s.stopped ≡ false
      → is_installed t ≡ true
      → All (λ (e : Text × ChangeType). ¬ (dest_of k p ≡ dest_of k e.0)) later
      → (last : Session) × (review_loop u c opcodes k (earlier ++ (p, t) ∷ later) s ≡ some last)
        × (lookup (dest_of k p) last.files ≡ some (bytes_or [] (lookup p k.source_files)))
  review_loop-forced [] later p t s e h n i d =
      let s' = accept_file p t s in
      let (last, r) = review_loop-ends later s' e h (stopped-accept_file p t s ∙ n) in
      (
        last,
        step-forced p t later s e h n ∙ r,
        review_loop-frame u c opcodes k (dest_of k p) later s' last d r
            ∙ installed-accept_file p t s i,
      )
  review_loop-forced ((p', t') ∷ earlier) later p t s e h n i d =
      let (last, r, g) =
        review_loop-forced earlier later p t (accept_file p' t' s) e h
          (stopped-accept_file p' t' s ∙ n) i d in
      (last, step-forced p' t' (earlier ++ (p, t) ∷ later) s e h n ∙ r, g)
