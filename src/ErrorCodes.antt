-- ===== src/ErrorCodes.antt =====
-- The error codes of cypilot/.core/skills/cypilot/scripts/cypilot/utils/error_codes.py: an
-- enumeration, with the text that each constant holds.
pub mod Laws
mod Tests
use katapult.Base.{String}
use katapult.Base.Text.{Text, txt}

pub data ErrorCode : Type 0 where
  cdsl_step_unchecked parent_unchecked_all_done parent_checked_nested_unchecked : ErrorCode
  ref_no_definition ref_done_def_not_done def_done_ref_not_done : ErrorCode
  ref_task_def_no_task heading_number_not_consecutive id_not_referenced : ErrorCode
  id_not_referenced_no_scope missing_constraints id_system_unrecognized : ErrorCode
  id_kind_not_allowed required_id_kind_missing template_def_kind_not_in_constraints : ErrorCode
  template_ref_kind_not_in_constraints def_missing_task def_prohibited_task : ErrorCode
  def_missing_priority def_prohibited_priority def_wrong_headings : ErrorCode
  heading_missing heading_prohibits_multiple heading_requires_multiple : ErrorCode
  heading_numbering_mismatch ref_target_not_in_scope ref_missing_from_kind : ErrorCode
  ref_wrong_headings ref_missing_task_for_tracked ref_from_prohibited_kind : ErrorCode
  ref_missing_task ref_prohibited_task ref_missing_priority : ErrorCode
  ref_prohibited_priority marker_dup_begin marker_end_no_begin : ErrorCode
  marker_empty_block marker_begin_no_end marker_dup_scope : ErrorCode
  code_docs_only code_orphan_ref code_task_unchecked : ErrorCode
  code_no_marker code_inst_missing code_inst_orphan : ErrorCode
  toc_missing toc_anchor_broken toc_heading_not_in_toc : ErrorCode
  toc_stale file_read_error file_load_error : ErrorCode

unfoldable pub code_text : ErrorCode → Text
unfolding txt
code_text cdsl_step_unchecked = txt "cdsl-step-unchecked"
code_text parent_unchecked_all_done = txt "parent-unchecked-all-done"
code_text parent_checked_nested_unchecked = txt "parent-checked-nested-unchecked"
code_text ref_no_definition = txt "ref-no-definition"
code_text ref_done_def_not_done = txt "ref-done-def-not-done"
code_text def_done_ref_not_done = txt "def-done-ref-not-done"
code_text ref_task_def_no_task = txt "ref-task-def-no-task"
code_text heading_number_not_consecutive = txt "heading-number-not-consecutive"
code_text id_not_referenced = txt "id-not-referenced"
code_text id_not_referenced_no_scope = txt "id-not-referenced-no-scope"
code_text missing_constraints = txt "missing-constraints"
code_text id_system_unrecognized = txt "id-system-unrecognized"
code_text id_kind_not_allowed = txt "id-kind-not-allowed"
code_text required_id_kind_missing = txt "required-id-kind-missing"
code_text template_def_kind_not_in_constraints = txt "template-def-kind-not-in-constraints"
code_text template_ref_kind_not_in_constraints = txt "template-ref-kind-not-in-constraints"
code_text def_missing_task = txt "def-missing-task"
code_text def_prohibited_task = txt "def-prohibited-task"
code_text def_missing_priority = txt "def-missing-priority"
code_text def_prohibited_priority = txt "def-prohibited-priority"
code_text def_wrong_headings = txt "def-wrong-headings"
code_text heading_missing = txt "heading-missing"
code_text heading_prohibits_multiple = txt "heading-prohibits-multiple"
code_text heading_requires_multiple = txt "heading-requires-multiple"
code_text heading_numbering_mismatch = txt "heading-numbering-mismatch"
code_text ref_target_not_in_scope = txt "ref-target-not-in-scope"
code_text ref_missing_from_kind = txt "ref-missing-from-kind"
code_text ref_wrong_headings = txt "ref-wrong-headings"
code_text ref_missing_task_for_tracked = txt "ref-missing-task-for-tracked"
code_text ref_from_prohibited_kind = txt "ref-from-prohibited-kind"
code_text ref_missing_task = txt "ref-missing-task"
code_text ref_prohibited_task = txt "ref-prohibited-task"
code_text ref_missing_priority = txt "ref-missing-priority"
code_text ref_prohibited_priority = txt "ref-prohibited-priority"
code_text marker_dup_begin = txt "marker-dup-begin"
code_text marker_end_no_begin = txt "marker-end-no-begin"
code_text marker_empty_block = txt "marker-empty-block"
code_text marker_begin_no_end = txt "marker-begin-no-end"
code_text marker_dup_scope = txt "marker-dup-scope"
code_text code_docs_only = txt "code-docs-only"
code_text code_orphan_ref = txt "code-orphan-ref"
code_text code_task_unchecked = txt "code-task-unchecked"
code_text code_no_marker = txt "code-no-marker"
code_text code_inst_missing = txt "code-inst-missing"
code_text code_inst_orphan = txt "code-inst-orphan"
code_text toc_missing = txt "toc-missing"
code_text toc_anchor_broken = txt "toc-anchor-broken"
code_text toc_heading_not_in_toc = txt "toc-heading-not-in-toc"
code_text toc_stale = txt "toc-stale"
code_text file_read_error = txt "file-read-error"
code_text file_load_error = txt "file-load-error"
