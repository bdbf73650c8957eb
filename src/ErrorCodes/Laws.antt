-- ===== src/ErrorCodes/Laws.antt =====
-- The texts of the codes of error_codes.py.
use katapult.Base.{◌≡◌, refl, ap, ◌∙◌, sym, Option, none, some, List, [], ◌∷◌, if◌then◌else◌, arith}
use katapult.Base.Text.{Text, text_dec, text_eq}
use katapult.ErrorCodes.{ErrorCode, code_text}
use katapult.ErrorCodes.{
  cdsl_step_unchecked, parent_unchecked_all_done, parent_checked_nested_unchecked,
  ref_no_definition,
}
use katapult.ErrorCodes.{
  ref_done_def_not_done, def_done_ref_not_done, ref_task_def_no_task,
  heading_number_not_consecutive,
}
use katapult.ErrorCodes.{
  id_not_referenced, id_not_referenced_no_scope, missing_constraints, id_system_unrecognized,
}
use katapult.ErrorCodes.{
  id_kind_not_allowed, required_id_kind_missing, template_def_kind_not_in_constraints,
  template_ref_kind_not_in_constraints,
}
use katapult.ErrorCodes.{
  def_missing_task, def_prohibited_task, def_missing_priority, def_prohibited_priority,
}
use katapult.ErrorCodes.{
  def_wrong_headings, heading_missing, heading_prohibits_multiple, heading_requires_multiple,
}
use katapult.ErrorCodes.{
  heading_numbering_mismatch, ref_target_not_in_scope, ref_missing_from_kind, ref_wrong_headings,
}
use katapult.ErrorCodes.{
  ref_missing_task_for_tracked, ref_from_prohibited_kind, ref_missing_task, ref_prohibited_task,
}
use katapult.ErrorCodes.{
  ref_missing_priority, ref_prohibited_priority, marker_dup_begin, marker_end_no_begin,
}
use katapult.ErrorCodes.{marker_empty_block, marker_begin_no_end, marker_dup_scope, code_docs_only}
use katapult.ErrorCodes.{code_orphan_ref, code_task_unchecked, code_no_marker, code_inst_missing}
use katapult.ErrorCodes.{code_inst_orphan, toc_missing, toc_anchor_broken, toc_heading_not_in_toc}
use katapult.ErrorCodes.{toc_stale, file_read_error, file_load_error}

all_codes : List ErrorCode
all_codes =
    cdsl_step_unchecked ∷ parent_unchecked_all_done ∷ parent_checked_nested_unchecked
    ∷ ref_no_definition ∷ ref_done_def_not_done ∷ def_done_ref_not_done ∷ ref_task_def_no_task
    ∷ heading_number_not_consecutive ∷ id_not_referenced ∷ id_not_referenced_no_scope
    ∷ missing_constraints ∷ id_system_unrecognized ∷ id_kind_not_allowed ∷ required_id_kind_missing
    ∷ template_def_kind_not_in_constraints ∷ template_ref_kind_not_in_constraints ∷ def_missing_task
    ∷ def_prohibited_task ∷ def_missing_priority ∷ def_prohibited_priority ∷ def_wrong_headings
    ∷ heading_missing ∷ heading_prohibits_multiple ∷ heading_requires_multiple
    ∷ heading_numbering_mismatch ∷ ref_target_not_in_scope ∷ ref_missing_from_kind
    ∷ ref_wrong_headings ∷ ref_missing_task_for_tracked ∷ ref_from_prohibited_kind
    ∷ ref_missing_task ∷ ref_prohibited_task ∷ ref_missing_priority ∷ ref_prohibited_priority
    ∷ marker_dup_begin ∷ marker_end_no_begin ∷ marker_empty_block ∷ marker_begin_no_end
    ∷ marker_dup_scope ∷ code_docs_only ∷ code_orphan_ref ∷ code_task_unchecked ∷ code_no_marker
    ∷ code_inst_missing ∷ code_inst_orphan ∷ toc_missing ∷ toc_anchor_broken
    ∷ toc_heading_not_in_toc ∷ toc_stale ∷ file_read_error ∷ file_load_error ∷ []

-- The code that a text stands for.
find_code : Text → List ErrorCode → Option ErrorCode
find_code t [] = none
find_code t (c ∷ cs) = if text_eq t (code_text c) then some c else find_code t cs

find_code-code_text : (c : ErrorCode) → find_code (code_text c) all_codes ≡ some c
unfolding find_code all_codes code_text text_dec
find_code-code_text cdsl_step_unchecked = refl
find_code-code_text _ = refl

-- Two codes with the same text are the same code.
pub code_text-injective : (c d : ErrorCode) → code_text c ≡ code_text d → c ≡ d
code_text-injective c d e =
    let same : some c ≡ some d =
      sym (find_code-code_text c) ∙ ap (λ t. find_code t all_codes) e ∙ find_code-code_text d in
    ground arith
