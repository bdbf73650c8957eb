-- ===== src/Constraints/Cross.antt =====
-- `cross_validate_artifacts` of constraints.py: the loops over the rules on references, and the whole.
-- Its parameter `known_kinds` is read into a set that nothing uses, and left out here.
pub mod Clean
use katapult.Base.{
  ℕ, Bool, true, false, not, ◌&&◌, ◌||◌, List, [], ◌∷◌, ◌++◌, map, Option, none, some,
  if◌then◌else◌,
}
use katapult.Base.Sorted.{sorted_set}
use katapult.Base.Text.{Text, text_eq, text_dec}
use katapult.Base.Dict.{Dict, lookup}
use katapult.Base.Unicode.{Unicode}
use katapult.Codebase.Cross.{or_nil}
use katapult.Constraints.Data.{
  HeadingConstraint, ReferenceRule, IdConstraint, ArtifactKindConstraints, ArtifactRecord,
}
use katapult.Constraints.Kinds.{
  normal, upper_kind, constraints_by_kind, missing_kinds, nested_kinds, kind_tokens,
}
use katapult.Constraints.Extract.{Vocabulary}
use katapult.Constraints.Index.{Row, CrossIndex, no_rows, at_key, index_artifacts}
use katapult.Constraints.Structure.{structure_errors}
use katapult.Constraints.Presence.{kind_of_row, heading_desc_by_kind}
use katapult.Constraints.Checks.{missing_constraints_error, check_artifacts}
use katapult.Constraints.Coverage.{Verdict, Demand, same_id, check_rule}

abbrev pub nothing_found : Verdict
nothing_found = ([], [])

-- Errors and warnings of two parts, in order.
abbrev pub then_verdict : Verdict → Verdict → Verdict
then_verdict (e, w) (e', w') = (e ++ e', w ++ w')

module _ (u : Unicode) (x : CrossIndex) where
  unfoldable pub present_kinds : Text → List Text
  unfolding at_key
  present_kinds system = at_key system x.present_kinds_by_system

  unfoldable pub references_from : Text → Text → Text → List Row
  unfolding at_key lookup same_id text_dec
  references_from system tk did =
      same_id did (at_key tk (or_nil (lookup system x.refs_by_system_kind)))

  unfoldable pub demand : Text → IdConstraint → Text → Row → Text → Demand
  unfolding upper_kind
  demand ak ic did d target_kind = record {
    did = did;
    artifact_kind = ak;
    constraint = ic;
    target_kind = upper_kind u target_kind;
    definition_row = d;
  }

module _ (u : Unicode) (repr : List Text → Text) (descs : Dict (Dict Text)) (x : CrossIndex) where
  -- The loop over the rules of a constraint.
  unfoldable pub check_rules :
      Text → IdConstraint → Text → Row → Text → Dict ReferenceRule → Verdict
  unfolding check_rule present_kinds references_from demand upper_kind
  check_rules ak ic did d system [] = nothing_found
  check_rules ak ic did d system ((target_kind, rule) ∷ rules) =
      then_verdict
        (check_rule u repr descs (demand u x ak ic did d target_kind) (present_kinds u x system)
          (references_from u x system (upper_kind u target_kind) did) rule)
        (check_rules ak ic did d system rules)

  unfoldable pub check_definition : Text → IdConstraint → Text → Row → Option Text → Verdict
  unfolding check_rules kind_of_row normal text_dec
  check_definition ak ic did d none = nothing_found
  check_definition ak ic did d (some system) =
      let verdict = check_rules ak ic did d system (or_nil ic.references) in
      if not (text_eq d.artifact_kind ak)
      then nothing_found
      else if not (text_eq (kind_of_row u d) (normal u ic.kind))
      then nothing_found
      else verdict

  unfoldable pub check_definitions : Text → IdConstraint → Text → List Row → Verdict
  unfolding check_definition
  check_definitions ak ic did [] = nothing_found
  check_definitions ak ic did (d ∷ ds) =
      then_verdict (check_definition ak ic did d d.system) (check_definitions ak ic did ds)

  unfoldable pub check_ids : Text → IdConstraint → Dict (List Row) → Verdict
  unfolding check_definitions
  check_ids ak ic [] = nothing_found
  check_ids ak ic ((did, drows) ∷ defs) =
      then_verdict (check_definitions ak ic did drows) (check_ids ak ic defs)

  unfoldable pub check_kind : Text → List IdConstraint → Verdict
  unfolding check_ids
  check_kind ak [] = nothing_found
  check_kind ak (ic ∷ ics) = then_verdict (check_ids ak ic x.defs_by_id) (check_kind ak ics)

  -- The loop over the constraints by kind of artifact.
  unfoldable pub check_coverage_rules : Dict ArtifactKindConstraints → Verdict
  unfolding check_kind
  check_coverage_rules [] = nothing_found
  check_coverage_rules ((ak, c) ∷ cs) =
      then_verdict (check_kind ak c.defined_id) (check_coverage_rules cs)

module _ (u : Unicode) (iteration : List Text → List Text) (repr : List Text → Text)
    (constraint_ids : Option (List Text) → List HeadingConstraint → List (List Text)) where
  -- The systems in lower case, the nested kinds and the tokens.
  unfoldable pub vocabulary : Option (List Text) → List ArtifactRecord → Vocabulary
  unfolding constraints_by_kind nested_kinds kind_tokens
  vocabulary registered artifacts =
      let cs = constraints_by_kind u artifacts [] in
      record {
        systems = map u.lower (or_nil registered);
        nested = nested_kinds u cs [];
        tokens = kind_tokens u cs;
        iteration = iteration;
      }

  unfoldable pub cross_index : Option (List Text) → List ArtifactRecord → CrossIndex
  unfolding vocabulary index_artifacts
  cross_index registered artifacts =
      index_artifacts u (vocabulary registered artifacts) constraint_ids artifacts [] no_rows

  unfoldable pub cross_validate_artifacts : List ArtifactRecord → Option (List Text) → Verdict
  unfolding cross_index missing_constraints_error structure_errors check_artifacts
      check_coverage_rules constraints_by_kind missing_kinds heading_desc_by_kind
  cross_validate_artifacts artifacts registered =
      let cs = constraints_by_kind u artifacts [] in
      let descs = heading_desc_by_kind u artifacts [] in
      let x = cross_index registered artifacts in
      then_verdict
        (
          missing_constraints_error u repr descs (missing_kinds u artifacts)
              ++ (structure_errors u (map u.lower (or_nil registered)) x.defs_by_id x.refs_by_id
                  ++ check_artifacts u repr descs cs x.defs_by_id artifacts),
          [],
        )
        (check_coverage_rules u repr descs x cs)
