-- ===== src/Constraints/Coverage/Kept.antt =====
-- When a rule on references is kept.
use katapult.Base.{
  ◌≡◌, refl, ◌∙◌, Bool, true, false, not, ◌&&◌, ◌||◌, List, [], ◌∷◌, ◌++◌, Option, none, some,
  arith, if◌then◌else◌,
}
use katapult.Base.Lists.{is_nil, all}
use katapult.Base.Text.{Text, txt, contains}
use katapult.Base.Dict.{Dict}
use katapult.Base.Unicode.{Unicode}
use katapult.ErrorCodes.{
  ErrorCode, ref_missing_task, ref_prohibited_task, ref_missing_priority, ref_prohibited_priority,
}
use katapult.Issue.{Issue}
use katapult.Constraints.Data.{ReferenceRule}
use katapult.Constraints.Index.{Row}
use katapult.Constraints.Presence.{allowed_headings}
use katapult.Constraints.Structure.Parts.{is_nil-append}
use katapult.Constraints.Coverage.{
  Verdict, Demand, any_under, first_row, mark_found, task_marks, priority_marks, marks,
  heading_errors, prohibited, check_coverage, check_rule,
}

-- `True` asks for the mark on every reference, `False` forbids it.
unfoldable pub is_marked : Option Bool → (Row → Bool) → List Row → Bool
unfolding all
is_marked none p refs = true
is_marked (some true) p refs = all p refs
is_marked (some false) p refs = all (λ r. not (p r)) refs

unfoldable pub is_well_marked : ReferenceRule → List Row → Bool
unfolding is_marked
is_well_marked rule refs =
    is_marked rule.task (λ r. r.has_task) refs && is_marked rule.priority (λ r. r.has_priority) refs

-- What the rule asks: no reference if they are prohibited; if one is required, the definition is an
-- open task, or no artifact of the kind is there, or there is a reference, one under the headings
-- if there are any, and all well marked; else only the marks.
unfoldable pub keeps_coverage : Option Bool → Demand → List Text → List Row → ReferenceRule → Bool
unfolding is_well_marked any_under allowed_headings
keeps_coverage none m present refs rule = is_well_marked rule refs
keeps_coverage (some false) m present refs rule = is_nil refs
keeps_coverage (some true) m present refs rule =
    (m.definition_row.has_task && not m.definition_row.checked)
    || (not (contains m.target_kind present)
        || (not (is_nil refs)
            && ((is_nil (allowed_headings rule.headings)
                  || any_under (allowed_headings rule.headings) refs)
                && is_well_marked rule refs)))

unfoldable pub is_kept : Demand → List Text → List Row → ReferenceRule → Bool
unfolding keeps_coverage
is_kept m present refs rule = keeps_coverage rule.coverage m present refs rule

abbrev pub errors_of : Verdict → List Issue
errors_of v = v.0

module _ (u : Unicode) (repr : List Text → Text) (descs : Dict (Dict Text)) (m : Demand) where
  found_nil :
      (what : Text) (code : ErrorCode) (p : Row → Bool) (refs : List Row)
      → is_nil (mark_found u repr descs m what code (first_row p refs)) ≡ all (λ r. not (p r)) refs
  unfolding first_row mark_found all
  found_nil what code p [] = refl
  found_nil what code p (r ∷ refs) =
      branches (p r) (first_row p refs) _ (found_nil what code p refs)
    where
      branches :
          (b : Bool) (o : Option Row) (c : Bool)
          → is_nil (mark_found u repr descs m what code o) ≡ c
          → is_nil (mark_found u repr descs m what code (if b then some r else o)) ≡ (not b && c)
      branches true o c e = refl
      branches false o c e = e

  double_not : (p : Row → Bool) (refs : List Row) → all (λ r. not (not (p r))) refs ≡ all p refs
  unfolding all
  double_not p [] = refl
  double_not p (r ∷ refs) = ground (arith, double_not p refs)

  task_marks_nil :
      (rule : Option Bool) (refs : List Row)
      → is_nil (task_marks u repr descs m rule refs) ≡ is_marked rule (λ r. r.has_task) refs
  unfolding task_marks is_marked
  task_marks_nil none refs = refl
  task_marks_nil (some true) refs =
      found_nil (txt "is missing required task checkbox `- [ ]`") ref_missing_task
        (λ r. not r.has_task) refs
      ∙ double_not (λ r. r.has_task) refs
  task_marks_nil (some false) refs =
      found_nil (txt "has task checkbox but task tracking is prohibited") ref_prohibited_task
        (λ r. r.has_task) refs

  priority_marks_nil :
      (rule : Option Bool) (refs : List Row)
      → is_nil (priority_marks u repr descs m rule refs) ≡ is_marked rule (λ r. r.has_priority) refs
  unfolding priority_marks is_marked
  priority_marks_nil none refs = refl
  priority_marks_nil (some true) refs =
      found_nil (txt "is missing required priority marker") ref_missing_priority
        (λ r. not r.has_priority) refs
      ∙ double_not (λ r. r.has_priority) refs
  priority_marks_nil (some false) refs =
      found_nil (txt "has priority marker but priority is prohibited") ref_prohibited_priority
        (λ r. r.has_priority) refs

  marks_nil :
      (rule : ReferenceRule) (refs : List Row)
      → is_nil (marks u repr descs m rule refs) ≡ is_well_marked rule refs
  unfolding marks is_well_marked
  marks_nil rule refs =
      is_nil-append (task_marks u repr descs m rule.task refs) _
      ∙ rw (task_marks_nil rule.task refs, priority_marks_nil rule.priority refs) refl

  headings_nil :
      (allowed : List Text) (r : Row) (refs : List Row)
      → is_nil (heading_errors u repr descs m allowed (r ∷ refs))
        ≡ (is_nil allowed || any_under allowed (r ∷ refs))
  unfolding heading_errors
  headings_nil allowed r refs = branches (is_nil allowed) (any_under allowed (r ∷ refs)) _
    where
      branches :
          (a b : Bool) (x : Issue) → is_nil (if not a && not b then x ∷ [] else []) ≡ (a || b)
      branches a b x = ground arith

  covered_nil :
      (allowed : List Text) (rule : ReferenceRule) (refs : List Row) (x y : Bool) (i j : Issue)
      → is_nil (
          errors_of (
            if x
            then ([], [])
            else if not y
            then ([], i ∷ [])
            else if is_nil refs
            then (j ∷ [], [])
            else (
              heading_errors u repr descs m allowed refs ++ marks u repr descs m rule refs,
              [],
            )))
        ≡ (x
            || (not y
                || (not (is_nil refs)
                    && ((is_nil allowed || any_under allowed refs) && is_well_marked rule refs))))
  covered_nil allowed rule refs true y i j = refl
  covered_nil allowed rule refs false false i j = refl
  covered_nil allowed rule [] false true i j = refl
  covered_nil allowed rule (r ∷ refs) false true i j =
      is_nil-append (heading_errors u repr descs m allowed (r ∷ refs)) _
      ∙ rw (headings_nil allowed r refs, marks_nil rule (r ∷ refs)) refl

  coverage_nil :
      (c : Option Bool) (present : List Text) (refs : List Row) (rule : ReferenceRule)
      → is_nil (check_coverage u repr descs m c present refs rule).0
        ≡ keeps_coverage c m present refs rule
  unfolding check_coverage keeps_coverage
  coverage_nil none present refs rule = marks_nil rule refs
  coverage_nil (some false) present [] rule = unfold prohibited in refl
  coverage_nil (some false) present (r ∷ refs) rule = unfold prohibited in refl
  coverage_nil (some true) present refs rule =
      covered_nil (allowed_headings rule.headings) rule refs _ (contains m.target_kind present) _ _

  pub check_rule_nil :
      (present : List Text) (refs : List Row) (rule : ReferenceRule)
      → is_nil (errors_of (check_rule u repr descs m present refs rule))
        ≡ is_kept m present refs rule
  unfolding check_rule is_kept
  check_rule_nil present refs rule = coverage_nil rule.coverage present refs rule
