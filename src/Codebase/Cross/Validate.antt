-- ===== src/Codebase/Cross/Validate.antt =====
-- `cross_validate_code` as a whole, and its instruction-level part.
use katapult.Base.{ℕ, List, [], ◌∷◌, ◌++◌, Option, none, some, if◌then◌else◌}
use katapult.Base.Lists.{is_nil}
use katapult.Base.Sorted.{sorted_set}
use katapult.Base.Text.{Text, txt, text_eq, text_dec, decimal, fstring}
use katapult.Base.Dict.{Dict, lookup, keys}
use katapult.ErrorCodes.{code_no_marker, code_inst_missing, code_inst_orphan}
use katapult.Issue.{FilePath, path_name, str, Issue, error}
use katapult.Codebase.Data.{CodeFile}
use katapult.Codebase.Query.{Report}
use katapult.Codebase.Cross.{minus, or_nil, docs_only, code_ids, orphans, first_forbidden, Insts}
use katapult.Codebase.Cross.{code_insts, insts_of, all_or, unchecked, place_of}

unfoldable pub no_marker_error : Text → Issue
unfolding error txt
no_marker_error id =
    error (txt "coverage")
      (fstring (
        txt "`"
        ∷ id
        ∷ txt
            "` is marked to_code=\"true\" but no @cpt marker referencing it exists in the codebase"
        ∷ []))
      (txt ".") 1 (some code_no_marker) ((txt "id", some (str id)) ∷ [])

unfoldable pub no_markers : List Text → List Issue
unfolding no_marker_error
no_markers [] = []
no_markers (id ∷ ids) = no_marker_error id ∷ no_markers ids

unfoldable pub inst_missing_error : Text → Text → Issue
unfolding error txt
inst_missing_error id inst =
    error (txt "coverage")
      (fstring (
        txt "CDSL instruction `"
        ∷ inst
        ∷ txt "` of `"
        ∷ id
        ∷ txt "` is defined in artifact but has no @cpt-begin/@cpt-end block in code"
        ∷ []))
      (txt ".") 1 (some code_inst_missing)
      ((txt "id", some (str id)) ∷ (txt "inst", some (str inst)) ∷ [])

unfoldable pub insts_missing : Text → List Text → List Issue
unfolding inst_missing_error
insts_missing id [] = []
insts_missing id (inst ∷ insts) = inst_missing_error id inst ∷ insts_missing id insts

unfoldable pub inst_orphan_error : Text → Text → FilePath × ℕ → Issue
unfolding error txt path_name decimal
inst_orphan_error id inst (path, line) =
    error (txt "traceability")
      (fstring (
        txt "Code block `inst-"
        ∷ inst
        ∷ txt "` of `"
        ∷ id
        ∷ txt "` in `"
        ∷ path_name path
        ∷ txt "` at line "
        ∷ decimal line
        ∷ txt " has no matching CDSL step in the artifact"
        ∷ []))
      path line (some code_inst_orphan)
      ((txt "id", some (str id)) ∷ (txt "inst", some (str inst)) ∷ [])

unfoldable pub inst_orphans : Text → Dict (FilePath × ℕ) → List Text → List Issue
unfolding inst_orphan_error
inst_orphans id places [] = []
inst_orphans id places (inst ∷ insts) =
    inst_orphan_error id inst (place_of (lookup inst places)) ∷ inst_orphans id places insts

-- The body of the loop over `sorted(artifact_instances.items())`.
unfoldable pub insts_of_id : Insts → Text → List Text → List Issue
unfolding insts_missing inst_orphans insts_of minus sorted_set
insts_of_id d id art =
    insts_missing id (sorted_set (minus art (insts_of id d)))
    ++ inst_orphans id (or_nil (lookup id d)) (sorted_set (minus (insts_of id d) art))

unfoldable pub insts_loop : Insts → Dict (List Text) → List Text → List Issue
unfolding insts_of_id
insts_loop d art [] = []
insts_loop d art (id ∷ ids) = insts_of_id d id (or_nil (lookup id art)) ++ insts_loop d art ids

-- The part under `if artifact_instances`.
unfoldable pub instructions : Option (Dict (List Text)) → List CodeFile → List Issue
unfolding insts_loop code_insts keys sorted_set
instructions none files = []
instructions (some []) files = []
instructions (some (e ∷ art)) files =
    insts_loop (code_insts files []) (e ∷ art) (sorted_set (keys (e ∷ art)))

-- The part under `if forbidden_code_ids`.
unfoldable pub unchecked_tasks :
    List Text → Option (Dict (List Text)) → Option (Dict (List Text)) → List CodeFile → List Issue
unfolding unchecked first_forbidden code_insts keys sorted_set
unchecked_tasks forbidden art art_all files =
    let found = first_forbidden forbidden files [] in
    if is_nil forbidden
    then []
    else unchecked (all_or art_all art) (code_insts files []) found (sorted_set (keys found))

-- The arguments of `cross_validate_code` behind the files.
pub record Request : Type 0 where
  pub artifact_ids : List Text
  pub to_code_ids : List Text
  pub forbidden_code_ids : Option (List Text)
  pub traceability : Text
  pub artifact_instances : Option (Dict (List Text))
  pub artifact_instances_all : Option (Dict (List Text))

-- What the function does in `FULL` mode.
unfoldable pub full_errors : List CodeFile → Request → List Issue
unfolding orphans unchecked_tasks no_markers code_ids minus instructions sorted_set
full_errors files q =
    orphans q.artifact_ids files
    ++ (unchecked_tasks (or_nil q.forbidden_code_ids) q.artifact_instances q.artifact_instances_all
          files
        ++ (no_markers (sorted_set (minus q.to_code_ids (code_ids files)))
            ++ instructions q.artifact_instances files))

unfoldable pub cross_validate_code : List CodeFile → Request → Report
unfolding docs_only full_errors text_dec txt
cross_validate_code files q = record {
  errors =
      if text_eq q.traceability (txt "DOCS-ONLY") then docs_only files else full_errors files q;
  warnings = [];
}
