-- ===== src/Codebase/Cross/Sound.antt =====
-- What it means that `cross_validate_code` reports no error.
use katapult.Base.{◌≡◌, ap, ◌∙◌, sym, ◌≢◌, ◌↔◌, Bool, List, [], ◌++◌, if◌then◌else◌}
use katapult.Base.Sorted.{sorted_set}
use katapult.Base.Text.{txt, text_eq_other}
use katapult.Codebase.Data.{CodeFile}
use katapult.Codebase.Cross.{minus, or_nil, code_ids, all_or, orphans, docs_only}
use katapult.Base.Members.{append_nil_iff}
use katapult.Codebase.Cross.Parts.{orphans_nil_iff, uncovered_nil_iff, unchecked_iff}
use katapult.Codebase.Cross.Parts.{instructions_iff, IsDefined, IsCovered, IsWaiting, IsImplemented}
use katapult.Codebase.Cross.Validate.{
  Request, no_markers, instructions, unchecked_tasks, full_errors,
}
use katapult.Codebase.Cross.Validate.{cross_validate_code}

-- What the artifacts and the code must agree on in `FULL` mode.
pub record IsTraced (fs : List CodeFile) (q : Request) : Type 0 where
  pub are_defined : IsDefined q.artifact_ids fs
  pub are_covered : IsCovered q.to_code_ids fs
  pub are_waiting :
      IsWaiting
        (or_nil q.forbidden_code_ids)
        (all_or q.artifact_instances_all q.artifact_instances)
        fs
  pub are_implemented : IsImplemented (or_nil q.artifact_instances) fs

full_errors_iff : (fs : List CodeFile) (q : Request) → (full_errors fs q ≡ []) ↔ IsTraced fs q
unfolding full_errors
full_errors_iff fs q =
    let a = orphans q.artifact_ids fs in
    let b =
      unchecked_tasks (or_nil q.forbidden_code_ids) q.artifact_instances q.artifact_instances_all
        fs in
    let c = no_markers (sorted_set (minus q.to_code_ids (code_ids fs))) in
    let d = instructions q.artifact_instances fs in
    let one = append_nil_iff a (b ++ (c ++ d)) in
    let two = append_nil_iff b (c ++ d) in
    let three = append_nil_iff c d in
    (
      λ e. record {
        are_defined = (orphans_nil_iff q.artifact_ids fs).0 (one.0 e).0;
        are_covered = (uncovered_nil_iff q.to_code_ids fs).0 (three.0 (two.0 (one.0 e).1).1).0;
        are_waiting =
            (unchecked_iff (or_nil q.forbidden_code_ids) q.artifact_instances
                q.artifact_instances_all fs).0
              (two.0 (one.0 e).1).0;
        are_implemented =
            (instructions_iff q.artifact_instances fs).0 (three.0 (two.0 (one.0 e).1).1).1;
      },
      λ t. one.1 (
        (orphans_nil_iff q.artifact_ids fs).1 t.are_defined,
        two.1 (
          (unchecked_iff (or_nil q.forbidden_code_ids) q.artifact_instances q.artifact_instances_all
                fs).1
              t.are_waiting,
          three.1 (
            (uncovered_nil_iff q.to_code_ids fs).1 t.are_covered,
            (instructions_iff q.artifact_instances fs).1 t.are_implemented,
          ),
        ),
      ),
    )

errors-full :
    (fs : List CodeFile) (q : Request)
    → q.traceability ≢ txt "DOCS-ONLY"
    → (cross_validate_code fs q).errors ≡ full_errors fs q
unfolding cross_validate_code
errors-full fs q h =
    ap (λ (b : Bool). if b then docs_only fs else full_errors fs q)
      (text_eq_other q.traceability (txt "DOCS-ONLY") h)

-- In every mode but `DOCS-ONLY`, there is no error exactly when the code references only ids that
-- the artifacts define, references every id that is to be in code, references an id whose task is
-- unchecked only while some instruction of it has no block, and has blocks for exactly the checked
-- instructions of each id that the artifacts give instructions for.
pub cross_validate_code-IsTraced :
    (fs : List CodeFile) (q : Request)
    → q.traceability ≢ txt "DOCS-ONLY"
    → ((cross_validate_code fs q).errors ≡ []) ↔ IsTraced fs q
cross_validate_code-IsTraced fs q h =
    let iff = full_errors_iff fs q in
    (λ e. iff.0 (sym (errors-full fs q h) ∙ e), λ t. errors-full fs q h ∙ iff.1 t)
