-- ===== src/Constraints/Coverage.antt =====
-- The rules of `cross_validate_artifacts` of constraints.py on where ids must be referenced: the
-- body of the innermost loop, for one definition and one rule.
pub mod Kept
use katapult.Base.{
  ℕ, Bool, true, false, not, ◌&&◌, ◌||◌, List, [], ◌∷◌, ◌++◌, Option, none, some, if◌then◌else◌,
}
use katapult.Base.Lists.{is_nil}
use katapult.Base.Text.{Text, txt, text_eq, text_dec, contains, fstring}
use katapult.Base.Dict.{Dict, lookup}
use katapult.Base.Unicode.{Unicode}
use katapult.ErrorCodes.{
  ErrorCode, ref_target_not_in_scope, ref_missing_from_kind, ref_wrong_headings,
  ref_from_prohibited_kind, ref_missing_task, ref_prohibited_task, ref_missing_priority,
  ref_prohibited_priority,
}
use katapult.Issue.{FilePath, Extra, str, strs, infos, Issue, error}
use katapult.Constraints.Data.{ReferenceRule, IdConstraint}
use katapult.Constraints.Kinds.{normal}
use katapult.Constraints.Index.{Row}
use katapult.Constraints.Presence.{
  allowed_headings, headings_info_for_kind, given_texts, given_infos, constraint_names, any_allowed,
}

-- Errors and warnings.
abbrev pub Verdict : Type 0
Verdict = List Issue × List Issue

-- A definition, the kind of its artifact, its constraint, and the kind that is to reference it.
pub record Demand : Type 0 where
  pub did : Text
  pub artifact_kind : Text
  pub constraint : IdConstraint
  pub target_kind : Text
  pub definition_row : Row

unfoldable pub same_id : Text → List Row → List Row
unfolding text_dec
same_id did [] = []
same_id did (r ∷ rows) = let rest = same_id did rows in if text_eq r.id did then r ∷ rest else rest

-- One of the references stands under one of the headings.
unfoldable pub any_under : List Text → List Row → Bool
unfolding text_dec
any_under allowed [] = false
any_under allowed (r ∷ refs) = any_allowed allowed r.headings || any_under allowed refs

-- The first of the rows that passes, as the loops with `break` find it.
unfoldable pub first_row : (Row → Bool) → List Row → Option Row
first_row p [] = none
first_row p (r ∷ rows) = let rest = first_row p rows in if p r then some r else rest

module _ (u : Unicode) (repr : List Text → Text) (descs : Dict (Dict Text)) (m : Demand) where
  abbrev ends : List (Text × Option Extra)
  unfolding txt
  ends =
      (txt "id", some (str m.did))
      ∷ (txt "artifact_kind", some (str m.artifact_kind))
      ∷ (txt "target_kind", some (str m.target_kind))
      ∷ []

  -- The constraint's kind and names.
  abbrev kinds : List (Text × Option Extra)
  unfolding txt normal constraint_names
  kinds = (txt "id_kind", some (str (normal u m.constraint.kind))) ∷ constraint_names m.constraint

  unfoldable pub not_in_scope : Issue
  unfolding error txt ends
  not_in_scope =
      error (txt "constraints")
        (fstring (
          txt "`"
          ∷ m.did
          ∷ txt "` (defined in "
          ∷ m.artifact_kind
          ∷ txt ") requires reference in `"
          ∷ m.target_kind
          ∷ txt "` artifact but no `"
          ∷ m.target_kind
          ∷ txt "` artifact exists in scope"
          ∷ []))
        m.definition_row.artifact_path m.definition_row.line (some ref_target_not_in_scope) ends

  unfoldable pub missing_from_kind : List Text → Issue
  unfolding error txt ends kinds normal headings_info_for_kind
  missing_from_kind allowed =
      error (txt "constraints")
        (fstring (
          txt "`"
          ∷ m.did
          ∷ txt "` (defined in "
          ∷ m.artifact_kind
          ∷ txt ", kind `"
          ∷ normal u m.constraint.kind
          ∷ txt "`) is not referenced from any `"
          ∷ m.target_kind
          ∷ txt "` artifact"
          ∷ []))
        m.definition_row.artifact_path m.definition_row.line (some ref_missing_from_kind)
        (ends
          ++ (kinds
              ++ (txt "target_headings", given_texts allowed)
                ∷ (
                  txt "target_headings_info",
                  given_infos allowed (headings_info_for_kind u descs m.target_kind allowed),
                )
                ∷ []))

  unfoldable pub under_wrong_headings : List Text → Row → Issue
  unfolding error txt ends kinds headings_info_for_kind
  under_wrong_headings allowed r =
      error (txt "constraints")
        (fstring (
          txt "Reference to `"
          ∷ m.did
          ∷ txt "` in `"
          ∷ m.target_kind
          ∷ txt "` artifact is under "
          ∷ repr r.headings
          ∷ txt " but must be under one of "
          ∷ repr allowed
          ∷ []))
        r.artifact_path r.line (some ref_wrong_headings)
        (ends
          ++ (txt "headings", some (strs allowed))
            ∷ (
              txt "headings_info",
              some (infos (headings_info_for_kind u descs m.target_kind allowed)),
            )
            ∷ (txt "found_headings", some (strs r.headings))
            ∷ kinds)

  unfoldable pub from_prohibited : Row → Issue
  unfolding error txt ends kinds
  from_prohibited r =
      error (txt "constraints")
        (fstring (
          txt "`"
          ∷ m.did
          ∷ txt "` is referenced in `"
          ∷ m.target_kind
          ∷ txt "` artifact but references from `"
          ∷ m.target_kind
          ∷ txt "` are prohibited for "
          ∷ m.artifact_kind
          ∷ txt " IDs"
          ∷ []))
        r.artifact_path r.line (some ref_from_prohibited_kind) (ends ++ kinds)

  -- The four errors on the marks of a reference, which differ in the text and the code.
  unfoldable pub mark_error : Text → ErrorCode → Row → Issue
  unfolding error txt ends kinds
  mark_error what code r =
      error (txt "constraints")
        (fstring (
          txt "Reference to `"
          ∷ m.did
          ∷ txt "` in `"
          ∷ m.target_kind
          ∷ txt "` artifact "
          ∷ what
          ∷ []))
        r.artifact_path r.line (some code) (ends ++ kinds)

  unfoldable pub mark_found : Text → ErrorCode → Option Row → List Issue
  unfolding mark_error
  mark_found what code none = []
  mark_found what code (some r) = mark_error what code r ∷ []

  unfoldable pub task_marks : Option Bool → List Row → List Issue
  unfolding mark_found first_row txt
  task_marks none refs = []
  task_marks (some true) refs =
      mark_found (txt "is missing required task checkbox `- [ ]`") ref_missing_task
        (first_row (λ r. not r.has_task) refs)
  task_marks (some false) refs =
      mark_found (txt "has task checkbox but task tracking is prohibited") ref_prohibited_task
        (first_row (λ r. r.has_task) refs)

  unfoldable pub priority_marks : Option Bool → List Row → List Issue
  unfolding mark_found first_row txt
  priority_marks none refs = []
  priority_marks (some true) refs =
      mark_found (txt "is missing required priority marker") ref_missing_priority
        (first_row (λ r. not r.has_priority) refs)
  priority_marks (some false) refs =
      mark_found (txt "has priority marker but priority is prohibited") ref_prohibited_priority
        (first_row (λ r. r.has_priority) refs)

  unfoldable pub marks : ReferenceRule → List Row → List Issue
  unfolding task_marks priority_marks
  marks rule refs = task_marks rule.task refs ++ priority_marks rule.priority refs

  unfoldable pub heading_errors : List Text → List Row → List Issue
  unfolding under_wrong_headings any_under
  heading_errors allowed [] = []
  heading_errors allowed (r ∷ refs) =
      if not (is_nil allowed) && not (any_under allowed (r ∷ refs))
      then under_wrong_headings allowed r ∷ []
      else []

  unfoldable pub prohibited : List Row → List Issue
  unfolding from_prohibited
  prohibited [] = []
  prohibited (r ∷ refs) = from_prohibited r ∷ []

  -- With the target kinds that are present for the definition's system, and the references from the
  -- target kind to its id.
  unfoldable pub check_coverage : Option Bool → List Text → List Row → ReferenceRule → Verdict
  unfolding not_in_scope missing_from_kind heading_errors prohibited marks allowed_headings text_dec
  check_coverage none present refs rule = (marks rule refs, [])
  check_coverage (some false) present refs rule = (prohibited refs, [])
  check_coverage (some true) present refs rule =
      if m.definition_row.has_task && not m.definition_row.checked
      then ([], [])
      else if not (contains m.target_kind present)
      then ([], not_in_scope ∷ [])
      else if is_nil refs
      then (missing_from_kind (allowed_headings rule.headings) ∷ [], [])
      else (heading_errors (allowed_headings rule.headings) refs ++ marks rule refs, [])

  unfoldable pub check_rule : List Text → List Row → ReferenceRule → Verdict
  unfolding check_coverage
  check_rule present refs rule = check_coverage rule.coverage present refs rule
