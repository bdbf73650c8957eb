-- ===== src/Constraints/Checks.antt =====
-- The checks of `cross_validate_artifacts` of constraints.py on the definitions of one artifact.
pub mod Met
use katapult.Base.{
  ℕ, Bool, true, false, not, ◌&&◌, ◌||◌, List, [], ◌∷◌, ◌++◌, Option, none, some, if◌then◌else◌,
}
use katapult.Base.Lists.{is_nil}
use katapult.Base.Sorted.{sorted_set}
use katapult.Base.Text.{Text, txt, text_eq, text_dec, contains, fstring}
use katapult.Base.Dict.{Dict, lookup}
use katapult.Base.Unicode.{Unicode}
use katapult.ErrorCodes.{
  missing_constraints, id_kind_not_allowed, required_id_kind_missing, def_wrong_headings,
}
use katapult.Issue.{FilePath, Extra, str, strs, infos, Issue, error}
use katapult.Constraints.Data.{IdConstraint, ArtifactKindConstraints, ArtifactRecord}
use katapult.Constraints.Kinds.{normal, upper_kind}
use katapult.Constraints.Index.{Row}
use katapult.Constraints.Presence.{
  headings_of, allowed_headings, headings_info_for_kind, given_texts, given_infos, constraint_names,
  defs_in_file, kind_of_row, of_kind, any_allowed, allowed_kinds,
}

-- Python's `repr` of a list of texts is an argument.
module _ (u : Unicode) (repr : List Text → Text) (descs : Dict (Dict Text)) where
  unfoldable pub missing_constraints_error : List Text → List Issue
  unfolding error txt sorted_set
  missing_constraints_error [] = []
  missing_constraints_error (k ∷ kinds) =
      error (txt "constraints")
        (fstring (
          txt "No constraints defined for artifact kinds: "
          ∷ repr (sorted_set (k ∷ kinds))
          ∷ txt " — add them to constraints.toml"
          ∷ []))
        (txt "<constraints.toml>") 1 (some missing_constraints)
        ((txt "kinds", some (strs (sorted_set (k ∷ kinds)))) ∷ [])
      ∷ []

  unfoldable pub not_allowed_error : FilePath → Text → Row → Issue
  unfolding error txt kind_of_row
  not_allowed_error path ak d =
      let k = kind_of_row u d in
      error (txt "constraints")
        (fstring (
          txt "`"
          ∷ d.id
          ∷ txt "` uses kind `"
          ∷ k
          ∷ txt "` not allowed in "
          ∷ ak
          ∷ txt " artifact"
          ∷ []))
        path d.line (some id_kind_not_allowed)
        ((txt "artifact_kind", some (str ak))
          ∷ (txt "id_kind", some (str k))
          ∷ (txt "id", some (str d.id))
          ∷ [])

  -- The definitions of a kind that the artifact is not to hold.
  unfoldable pub not_allowed : FilePath → Text → List Text → List Row → List Issue
  unfolding not_allowed_error kind_of_row text_dec
  not_allowed path ak allowed [] = []
  not_allowed path ak allowed (d ∷ ds) =
      let rest = not_allowed path ak allowed ds in
      if is_nil (kind_of_row u d)
      then rest
      else if not (is_nil allowed) && not (contains (kind_of_row u d) allowed)
      then not_allowed_error path ak d ∷ rest
      else rest

  unfoldable pub required_error : FilePath → Text → IdConstraint → Issue
  unfolding error txt normal headings_of headings_info_for_kind constraint_names
  required_error path ak ic =
      let k = normal u ic.kind in
      let hs = headings_of ic.headings in
      error (txt "constraints")
        (fstring
          (ak ∷ txt " artifact has no `" ∷ k ∷ txt "` IDs but at least one is required" ∷ []))
        path 1 (some required_id_kind_missing)
        ((txt "artifact_kind", some (str ak))
          ∷ (txt "id_kind", some (str k))
          ∷ (constraint_names ic
              ++ (txt "target_headings", given_texts hs)
                ∷ (
                  txt "target_headings_info",
                  given_infos hs (headings_info_for_kind u descs ak hs),
                )
                ∷ []))

  unfoldable pub wrong_headings_error : FilePath → Text → IdConstraint → Row → Issue
  unfolding error txt normal allowed_headings headings_info_for_kind constraint_names
  wrong_headings_error path ak ic d =
      let k = normal u ic.kind in
      let allowed = allowed_headings ic.headings in
      error (txt "constraints")
        (fstring (
          txt "`"
          ∷ d.id
          ∷ txt "` (kind `"
          ∷ k
          ∷ txt "`) in "
          ∷ ak
          ∷ txt " artifact is under "
          ∷ repr d.headings
          ∷ txt " but must be under one of "
          ∷ repr allowed
          ∷ []))
        path d.line (some def_wrong_headings)
        ((txt "artifact_kind", some (str ak))
          ∷ (txt "id_kind", some (str k))
          ∷ (txt "id", some (str d.id))
          ∷ (txt "headings", some (strs allowed))
          ∷ (txt "headings_info", some (infos (headings_info_for_kind u descs ak allowed)))
          ∷ (txt "found_headings", some (strs d.headings))
          ∷ constraint_names ic)

  -- The definitions of the kind that stand under none of the headings.
  unfoldable pub wrong_headings : FilePath → Text → IdConstraint → List Text → List Row → List Issue
  unfolding wrong_headings_error text_dec
  wrong_headings path ak ic allowed [] = []
  wrong_headings path ak ic allowed (d ∷ ds) =
      let rest = wrong_headings path ak ic allowed ds in
      if any_allowed allowed d.headings then rest else wrong_headings_error path ak ic d ∷ rest

  -- One turn of the loop over the constraints of the artifact's kind.
  unfoldable pub check_constraint : FilePath → Text → List Row → IdConstraint → List Issue
  unfolding required_error wrong_headings of_kind allowed_headings normal
  check_constraint path ak ds ic =
      let k = normal u ic.kind in
      let of_k = of_kind u k ds in
      let allowed = allowed_headings ic.headings in
      if ic.required && (not (is_nil k) && is_nil of_k)
      then required_error path ak ic ∷ []
      else if not (is_nil allowed) && not (is_nil of_k)
      then wrong_headings path ak ic allowed of_k
      else []

  unfoldable pub check_constraints : FilePath → Text → List Row → List IdConstraint → List Issue
  unfolding check_constraint
  check_constraints path ak ds [] = []
  check_constraints path ak ds (ic ∷ ics) =
      check_constraint path ak ds ic ++ check_constraints path ak ds ics

  unfoldable pub check_artifact :
      FilePath → Text → List Row → Option ArtifactKindConstraints → List Issue
  unfolding not_allowed check_constraints allowed_kinds
  check_artifact path ak ds none = []
  check_artifact path ak ds (some c) =
      not_allowed path ak (allowed_kinds u c.defined_id) ds
      ++ check_constraints path ak ds c.defined_id

  -- The loop over the artifacts.
  unfoldable pub check_artifacts :
      Dict ArtifactKindConstraints → Dict (List Row) → List ArtifactRecord → List Issue
  unfolding check_artifact defs_in_file upper_kind lookup text_dec
  check_artifacts cs defs [] = []
  check_artifacts cs defs (art ∷ arts) =
      let ak = upper_kind u art.artifact_kind in
      check_artifact art.path ak (defs_in_file art.path defs) (lookup ak cs)
      ++ check_artifacts cs defs arts
