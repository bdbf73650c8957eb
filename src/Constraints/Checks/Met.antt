-- ===== src/Constraints/Checks/Met.antt =====
-- When the checks on one artifact report nothing.
use katapult.Base.{
  ◌≡◌, refl, ◌∙◌, Bool, true, not, ◌&&◌, ◌||◌, List, [], ◌∷◌, Option, none, some, arith,
  if◌then◌else◌,
}
use katapult.Base.Lists.{is_nil, all}
use katapult.Base.Text.{Text, contains}
use katapult.Base.Dict.{Dict, lookup}
use katapult.Base.Unicode.{Unicode}
use katapult.Issue.{FilePath, Issue}
use katapult.Constraints.Data.{IdConstraint, ArtifactKindConstraints, ArtifactRecord}
use katapult.Constraints.Kinds.{normal, upper_kind}
use katapult.Constraints.Index.{Row}
use katapult.Constraints.Presence.{
  allowed_headings, kind_of_row, of_kind, any_allowed, allowed_kinds, defs_in_file,
}
use katapult.Constraints.Structure.Parts.{is_nil-append}
use katapult.Constraints.Checks.{
  not_allowed, wrong_headings, check_constraint, check_constraints, check_artifact, check_artifacts,
}

module _ (u : Unicode) where
  -- A definition has no kind, or one that the artifact may hold.
  unfoldable pub is_allowed : List IdConstraint → Row → Bool
  unfolding kind_of_row allowed_kinds
  is_allowed ics d =
      is_nil (kind_of_row u d)
      || (is_nil (allowed_kinds u ics) || contains (kind_of_row u d) (allowed_kinds u ics))

  -- The artifact defines an id of the kind, if it must, and if headings are given, then every id of
  -- the kind stands under one of them.
  unfoldable pub is_met : List Row → IdConstraint → Bool
  unfolding normal of_kind allowed_headings all
  is_met ds ic =
      let of_k = of_kind u (normal u ic.kind) ds in
      let allowed = allowed_headings ic.headings in
      (not ic.required || (is_nil (normal u ic.kind) || not (is_nil of_k)))
      && (is_nil allowed || all (λ d. any_allowed allowed d.headings) of_k)

  -- The definitions meet the constraints, if there are any.
  unfoldable pub is_fit : List Row → Option ArtifactKindConstraints → Bool
  unfolding is_allowed is_met all
  is_fit ds none = true
  is_fit ds (some c) = all (is_allowed c.defined_id) ds && all (is_met ds) c.defined_id

  -- The artifact's definitions meet the constraints of its kind.
  unfoldable pub is_complete :
      Dict ArtifactKindConstraints → Dict (List Row) → ArtifactRecord → Bool
  unfolding is_fit defs_in_file upper_kind lookup
  is_complete cs defs art =
      is_fit (defs_in_file art.path defs) (lookup (upper_kind u art.artifact_kind) cs)

  module _ (repr : List Text → Text) (descs : Dict (Dict Text)) (path : FilePath) (ak : Text) where
    not_allowed_nil :
        (ics : List IdConstraint) (ds : List Row)
        → is_nil (not_allowed u repr descs path ak (allowed_kinds u ics) ds)
          ≡ all (is_allowed ics) ds
    unfolding not_allowed is_allowed all
    not_allowed_nil ics [] = refl
    not_allowed_nil ics (d ∷ ds) =
        branches (is_nil (kind_of_row u d)) (is_nil (allowed_kinds u ics))
          (contains (kind_of_row u d) (allowed_kinds u ics)) _ _ _ (not_allowed_nil ics ds)
      where
        branches :
            (a b c : Bool) (x : Issue) (xs : List Issue) (r : Bool)
            → is_nil xs ≡ r
            → is_nil (if a then xs else if not b && not c then x ∷ xs else xs)
              ≡ ((a || (b || c)) && r)
        branches a b c x xs r e = ground (arith, e)

    wrong_headings_nil :
        (ic : IdConstraint) (allowed : List Text) (ds : List Row)
        → is_nil (wrong_headings u repr descs path ak ic allowed ds)
          ≡ all (λ d. any_allowed allowed d.headings) ds
    unfolding wrong_headings all
    wrong_headings_nil ic allowed [] = refl
    wrong_headings_nil ic allowed (d ∷ ds) =
        branches (any_allowed allowed d.headings) _ _ _ (wrong_headings_nil ic allowed ds)
      where
        branches :
            (a : Bool) (x : Issue) (xs : List Issue) (r : Bool)
            → is_nil xs ≡ r
            → is_nil (if a then xs else x ∷ xs) ≡ (a && r)
        branches a x xs r e = ground (arith, e)

    check_constraint_nil :
        (ds : List Row) (ic : IdConstraint)
        → is_nil (check_constraint u repr descs path ak ds ic) ≡ is_met ds ic
    unfolding check_constraint is_met
    check_constraint_nil ds ic =
        branches ic.required (is_nil (normal u ic.kind)) (is_nil (allowed_headings ic.headings))
          (of_kind u (normal u ic.kind) ds) _ _ _
          (wrong_headings_nil ic (allowed_headings ic.headings) (of_kind u (normal u ic.kind) ds))
      where
        branches :
            (q k a : Bool) (of_k : List Row) (x : Issue) (xs : List Issue) (p : Row → Bool)
            → is_nil xs ≡ all p of_k
            → is_nil (
                if q && (not k && is_nil of_k)
                then x ∷ []
                else if not a && not (is_nil of_k)
                then xs
                else [])
              ≡ ((not q || (k || not (is_nil of_k))) && (a || all p of_k))
        branches q k a [] x xs p e =
            let z : all p [] ≡ true = unfold all in refl in ground (arith, z)
        branches q k a (d ∷ of_k) x xs p e = ground (arith, e)

    check_constraints_nil :
        (ds : List Row) (ics : List IdConstraint)
        → is_nil (check_constraints u repr descs path ak ds ics) ≡ all (is_met ds) ics
    unfolding check_constraints all
    check_constraints_nil ds [] = refl
    check_constraints_nil ds (ic ∷ ics) =
        is_nil-append (check_constraint u repr descs path ak ds ic) _
        ∙ rw (check_constraint_nil ds ic, check_constraints_nil ds ics) refl

    check_artifact_nil :
        (ds : List Row) (o : Option ArtifactKindConstraints)
        → is_nil (check_artifact u repr descs path ak ds o) ≡ is_fit ds o
    unfolding check_artifact is_fit
    check_artifact_nil ds none = refl
    check_artifact_nil ds (some c) =
        is_nil-append (not_allowed u repr descs path ak (allowed_kinds u c.defined_id) ds) _
        ∙ rw (not_allowed_nil c.defined_id ds, check_constraints_nil ds c.defined_id) refl

  pub check_artifacts_nil :
      (repr : List Text → Text) (descs : Dict (Dict Text)) (cs : Dict ArtifactKindConstraints)
      (defs : Dict (List Row)) (arts : List ArtifactRecord)
      → is_nil (check_artifacts u repr descs cs defs arts) ≡ all (is_complete cs defs) arts
  unfolding check_artifacts is_complete all
  check_artifacts_nil repr descs cs defs [] = refl
  check_artifacts_nil repr descs cs defs (art ∷ arts) =
      is_nil-append
        (check_artifact u repr descs art.path (upper_kind u art.artifact_kind)
          (defs_in_file art.path defs) (lookup (upper_kind u art.artifact_kind) cs))
        _
      ∙ rw
          (
            check_artifact_nil repr descs art.path (upper_kind u art.artifact_kind)
                (defs_in_file art.path defs) (lookup (upper_kind u art.artifact_kind) cs),
            check_artifacts_nil repr descs cs defs arts,
          )
          refl
