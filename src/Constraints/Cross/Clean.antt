-- ===== src/Constraints/Cross/Clean.antt =====
-- When `cross_validate_artifacts` reports no error.
use katapult.Base.{Bool, true, not, ◌&&◌, ◌||◌, List, [], map, Option, none, some}
use katapult.Base.Lists.{is_nil, all}
use katapult.Base.Text.{Text, text_eq}
use katapult.Base.Dict.{Dict}
use katapult.Base.Unicode.{Unicode}
use katapult.Codebase.Cross.{or_nil}
use katapult.Issue.{Issue}
use katapult.Constraints.Data.{
  HeadingConstraint, ReferenceRule, IdConstraint, ArtifactKindConstraints, ArtifactRecord,
}
use katapult.Constraints.Kinds.{normal, upper_kind, constraints_by_kind, missing_kinds}
use katapult.Constraints.Index.{Row, CrossIndex}
use katapult.Constraints.Structure.Sound.{is_consistent}
use katapult.Constraints.Presence.{kind_of_row}
use katapult.Constraints.Checks.Met.{is_complete}
use katapult.Constraints.Coverage.Kept.{is_kept}
use katapult.Constraints.Cross.{present_kinds, references_from, demand, cross_index}

module _ (u : Unicode) (x : CrossIndex) where
  -- Every rule of the constraint is kept for the definition of the system.
  unfoldable pub keeps_rules : Text → IdConstraint → Text → Row → Text → Dict ReferenceRule → Bool
  unfolding is_kept present_kinds references_from demand upper_kind all
  keeps_rules ak ic did d system rules =
      all
        (λ e.
          is_kept (demand u x ak ic did d e.0) (present_kinds u x system)
            (references_from u x system (upper_kind u e.0) did) e.1)
        rules

  -- A definition of the constraint's kind, in an artifact of the kind, whose system is known, keeps
  -- the rules.
  unfoldable pub is_followed : Text → IdConstraint → Text → Row → Option Text → Bool
  unfolding keeps_rules kind_of_row normal
  is_followed ak ic did d none = true
  is_followed ak ic did d (some system) =
      not (text_eq d.artifact_kind ak)
      || (not (text_eq (kind_of_row u d) (normal u ic.kind))
          || keeps_rules ak ic did d system (or_nil ic.references))

  unfoldable pub is_covered : Text × ArtifactKindConstraints → Bool
  unfolding is_followed all
  is_covered (ak, c) =
      all (λ ic. all (λ e. all (λ d. is_followed ak ic e.0 d d.system) e.1) x.defs_by_id)
        c.defined_id

module _ (u : Unicode) (iteration : List Text → List Text) (repr : List Text → Text)
    (constraint_ids : Option (List Text) → List HeadingConstraint → List (List Text))
    (artifacts : List ArtifactRecord) (registered : Option (List Text)) where
  abbrev index : CrossIndex
  index = cross_index u iteration repr constraint_ids registered artifacts

  abbrev all_constraints : Dict ArtifactKindConstraints
  all_constraints = constraints_by_kind u artifacts []

  -- Every artifact has constraints, the references are consistent, each artifact's definitions meet
  -- its constraints, and the definitions keep the rules on their references.
  unfoldable pub is_valid : Bool
  unfolding is_consistent is_complete is_covered all
  is_valid =
      (is_nil (missing_kinds u artifacts)
        && (all (is_consistent u (map u.lower (or_nil registered)) index.defs_by_id)
              index.refs_by_id
            && all (is_complete u all_constraints index.defs_by_id) artifacts))
      && all (is_covered u index) all_constraints
