-- ===== src/Diff/Review/Frame.antt =====
-- Which files the review touches.
use katapult.Base.{
  ◌≡◌, refl, ◌∙◌, ap, subst, Bool, true, false, ◌&&◌, ◌||◌, List, [], ◌∷◌, Option, none, some,
  arith, inl, inr, Bool-cases, if◌then◌else◌,
}
use katapult.Base.Lists.{All, All-map}
use katapult.Base.Text.{Text, text_eq_other}
use katapult.Base.Dict.{Dict, lookup, insert, erase, lookup-insert}
use katapult.Base.Unicode.{Unicode}
use katapult.Diff.Codec.{Bytes, Codec}
use katapult.Diff.Prompt.{Decision, accept, decline, modify, prompt_kit_file}
use katapult.Diff.Merge.{Merged, returned, waiting, Opcodes}
use katapult.Diff.StripToc.{TocFormat}
use katapult.Diff.Review.{
  ChangeType, added, removed, modified, Action, accepted, declined, merged, Update, Session,
  Decided, dest_of, apply_change, edited, decided, decide, should_regen, regen_result, regen,
  carry_out, carried, review_file, review_loop, bytes_or, format_or, wrote_merged, has_format,
  Entry, add_entry,
}

lookup-erase : (q k : Text) (d : Dict Bytes) → ¬ (q ≡ k) → lookup q (erase k d) ≡ lookup q d
unfolding lookup erase
lookup-erase q k [] h = refl
lookup-erase q k ((j, w) ∷ d) h = ground (arith, lookup-erase q k d h)

lookup-insert_other :
    (q d : Text) (b : Bytes) (files : Dict Bytes)
    → ¬ (q ≡ d)
    → lookup q (insert d b files) ≡ lookup q files
lookup-insert_other q d b files h = lookup-insert q d b files ∙ rw (text_eq_other q d h) refl

lookup-apply_change :
    (q d : Text) (t : ChangeType) (a : Action) (new raw : Bytes) (files : Dict Bytes)
    → ¬ (q ≡ d)
    → lookup q (apply_change t a d new raw files) ≡ lookup q files
unfolding apply_change
lookup-apply_change q d added accepted new raw files h = lookup-insert_other q d raw files h
lookup-apply_change q d added merged new raw files h = lookup-insert_other q d new files h
lookup-apply_change q d added declined new raw files h = refl
lookup-apply_change q d modified accepted new raw files h = lookup-insert_other q d raw files h
lookup-apply_change q d modified merged new raw files h = lookup-insert_other q d new files h
lookup-apply_change q d modified declined new raw files h = refl
lookup-apply_change q d removed accepted new raw files h = ground (arith, lookup-erase q d files h)
lookup-apply_change q d removed merged new raw files h = refl
lookup-apply_change q d removed declined new raw files h = refl

-- The decision is made in a session with the files of this one.
abbrev SameFiles : Session → Option Decided → Type 0
SameFiles s none = Unit
SameFiles s (some (a, new, s')) = s'.files ≡ s.files

module _ (u : Unicode) (c : Codec) (opcodes : Opcodes) (k : Update) where
  edited-SameFiles :
      (new : Bytes) (s : Session) (m : Merged) → SameFiles s (edited u c opcodes k new s m)
  unfolding edited
  edited-SameFiles new s (returned (some b) runs input) = refl
  edited-SameFiles new s (returned none runs input) = refl
  edited-SameFiles new s (waiting t) = tt

  decided-SameFiles :
      (old new : Bytes) (s : Session) (d : Decision)
      → SameFiles s (decided u c opcodes k old new s d)
  unfolding decided
  decided-SameFiles old new s accept = refl
  decided-SameFiles old new s decline = refl
  decided-SameFiles old new s modify = edited-SameFiles new s _

  decide-SameFiles : (old new : Bytes) (s : Session) → SameFiles s (decide u c opcodes k old new s)
  unfolding decide
  decide-SameFiles old new s = elim (Bool-cases (k.force || k.auto_approve)) [
    | inl e ↦ rw e refl
    | inr e ↦ rw e (elim (Bool-cases k.interactive) [
      | inl i ↦
          let r = prompt_kit_file s.review in
          rw i (decided-SameFiles old new (record s { review = r.1 }) r.0)
      | inr i ↦ rw i refl
    ])
  ]

  should_regen-files : (s : Session) → (should_regen u c opcodes k s).1.files ≡ s.files
  unfolding should_regen
  should_regen-files s = ground arith

  lookup-regen_result :
      (q p d : Text) (pre : Bytes) (s : Session) (o : Option Bytes)
      → ¬ (q ≡ d)
      → lookup q (regen_result u c opcodes k p d pre s o).files ≡ lookup q s.files
  unfolding regen_result
  lookup-regen_result q p d pre s (some b) h = lookup-insert_other q d b s.files h
  lookup-regen_result q p d pre s none h =
      let same = lookup-insert_other q d (bytes_or pre (lookup p k.user_files)) s.files h in
      elim (Bool-cases k.interactive) [ inl e ↦ rw e same | inr e ↦ rw e same ]

  lookup-regen :
      (q p d : Text) (f : TocFormat) (s : Session)
      → ¬ (q ≡ d)
      → lookup q (regen u c opcodes k p d f s).files ≡ lookup q s.files
  unfolding regen
  lookup-regen q p d f s h =
      let r = should_regen u c opcodes k s in
      let same = ap (lookup q) (should_regen-files s) in
      elim (Bool-cases r.0) [
        | inl e ↦ rw e (lookup-regen_result q p d _ r.1 _ h ∙ same)
        | inr e ↦ rw e same
      ]

  add_entry-files : (t : ChangeType) (e : Entry) (s : Session) → (add_entry t e s).files ≡ s.files
  add_entry-files added e s = refl
  add_entry-files removed e s = refl
  add_entry-files modified e s = refl

  lookup-carry_out :
      (q p : Text) (t : ChangeType) (a : Action) (new : Bytes) (s : Session)
      → ¬ (q ≡ dest_of k p)
      → lookup q (carry_out u c opcodes k p t (a, new, s)).files ≡ lookup q s.files
  unfolding carry_out
  lookup-carry_out q p t a new s h =
      let d = dest_of k p in
      let raw = bytes_or [] (lookup p k.source_files) in
      let format = format_or (lookup p k.toc_formats) in
      let noted = add_entry t (record { path = p; action = a }) s in
      let written = record noted { files = apply_change t a d new raw noted.files } in
      let same = ap (lookup q) (add_entry-files t (record { path = p; action = a }) s) in
      let one = lookup-apply_change q d t a new raw noted.files h ∙ same in
      elim (Bool-cases k.dry_run) [
        | inl e ↦ rw e same
        | inr e ↦ rw e (elim (Bool-cases (wrote_merged t a && has_format format)) [
          | inl f ↦ rw f (lookup-regen q p d format written h ∙ one)
          | inr f ↦ rw f one
        ])
      ]

  files-carry_out_dry :
      (p : Text) (t : ChangeType) (a : Action) (new : Bytes) (s : Session)
      → k.dry_run ≡ true
      → (carry_out u c opcodes k p t (a, new, s)).files ≡ s.files
  unfolding carry_out
  files-carry_out_dry p t a new s e = rw e (add_entry-files t (record { path = p; action = a }) s)

  -- The property of the session that comes out, if one does.
  abbrev Holds : (Session → Type 0) → Option Session → Type 0
  Holds I none = Unit
  Holds I (some s) = I s

  Holds-if :
      (I : Session → Type 0) (b : Bool) (x y : Option Session)
      → Holds I x
      → Holds I y
      → Holds I (if b then x else y)
  Holds-if I true x y h g = h
  Holds-if I false x y h g = g

  Holds-next :
      (I : Session → Type 0) (o : Option Session) (rest : Session → Option Session)
      → Holds I o
      → ((s : Session) → I s → Holds I (rest s))
      → Holds I (elim o [ none ↦ none | some s ↦ if s.stopped then some s else rest s ])
  Holds-next I none rest h f = tt
  Holds-next I (some s) rest h f = Holds-if I s.stopped (some s) (rest s) h (f s h)

  -- One changed file keeps the property.
  abbrev Keeps : (Session → Type 0) → Text × ChangeType → Type 0
  Keeps I e = (s : Session) → I s → Holds I (review_file u c opcodes k e.0 e.1 s)

  review_loop-Holds :
      (I : Session → Type 0) (changed : List (Text × ChangeType)) (s : Session)
      → All (Keeps I) changed
      → I s
      → Holds I (review_loop u c opcodes k changed s)
  unfolding review_loop
  review_loop-Holds I [] s h p = p
  review_loop-Holds I ((p, t) ∷ changed) s h i =
      Holds-next I (review_file u c opcodes k p t s) (review_loop u c opcodes k changed) (h.0 s i)
        (λ s' i'. review_loop-Holds I changed s' h.1 i')

  carried-same :
      (q p : Text) (t : ChangeType) (b : Option Bytes) (s : Session) (o : Option Decided)
      → ¬ (q ≡ dest_of k p)
      → SameFiles s o
      → lookup q s.files ≡ b
      → Holds (λ s'. lookup q s'.files ≡ b) (carried u c opcodes k p t o)
  unfolding carried
  carried-same q p t b s none h e i = tt
  carried-same q p t b s (some (a, new, s')) h e i =
      lookup-carry_out q p t a new s' h ∙ ap (lookup q) e ∙ i

  carried-dry :
      (p : Text) (t : ChangeType) (files : Dict Bytes) (s : Session) (o : Option Decided)
      → k.dry_run ≡ true
      → SameFiles s o
      → s.files ≡ files
      → Holds (λ s'. s'.files ≡ files) (carried u c opcodes k p t o)
  unfolding carried
  carried-dry p t files s none h e i = tt
  carried-dry p t files s (some (a, new, s')) h e i = files-carry_out_dry p t a new s' h ∙ e ∙ i

  -- Whatever is decided about the changed files, once the loop has ended a path that is the
  -- destination of none of them holds what it held before.
  pub review_loop-frame :
      (q : Text) (changed : List (Text × ChangeType)) (s last : Session)
      → All (λ (e : Text × ChangeType). ¬ (q ≡ dest_of k e.0)) changed
      → review_loop u c opcodes k changed s ≡ some last
      → lookup q last.files ≡ lookup q s.files
  unfolding review_file
  review_loop-frame q changed s last h e =
      let I = λ (s' : Session). lookup q s'.files ≡ lookup q s.files in
      subst (Holds I) e (
        review_loop-Holds I changed s
          (All-map (Keeps I)
            (λ (x : Text × ChangeType) (d : ¬ (q ≡ dest_of k x.0)) s' i.
              carried-same q x.0 x.1 (lookup q s.files) s' _ d (decide-SameFiles _ _ s') i)
            changed h)
          refl)

  every :
      (I : Session → Type 0) (f : (e : Text × ChangeType) → Keeps I e)
      (changed : List (Text × ChangeType))
      → All (Keeps I) changed
  every I f [] = tt
  every I f (e ∷ changed) = (f e, every I f changed)

  -- In a dry run, the loop leaves every file as it was when it ends.
  pub review_loop-dry_run :
      (changed : List (Text × ChangeType)) (s last : Session)
      → k.dry_run ≡ true
      → review_loop u c opcodes k changed s ≡ some last
      → last.files ≡ s.files
  unfolding review_file
  review_loop-dry_run changed s last h e =
      let I = λ (s' : Session). s'.files ≡ s.files in
      subst (Holds I) e (
        review_loop-Holds I changed s
          (every I (λ x s' i. carried-dry x.0 x.1 s.files s' _ h (decide-SameFiles _ _ s') i)
            changed)
          refl)
