-- ===== src/Codebase/Cross.antt =====
-- `cross_validate_code` of codebase.py: the markers of all code files against the ids and the
-- instructions that the artifacts define. Sets are lists that only `contains` reads.
pub mod Validate
pub mod Sets
pub mod Parts
pub mod Sound
use katapult.Base.{
  ℕ, Bool, true, false, not, ◌&&◌, ◌||◌, List, [], ◌∷◌, ◌++◌, Option, none, some, if◌then◌else◌,
}
use katapult.Base.Lists.{is_nil, concat}
use katapult.Base.Sorted.{sorted_set}
use katapult.Base.Text.{Text, txt, text_eq, text_dec, contains, decimal, fstring}
use katapult.Base.Dict.{Dict, lookup, insert, keys}
use katapult.ErrorCodes.{code_docs_only, code_orphan_ref, code_task_unchecked, code_no_marker}
use katapult.ErrorCodes.{code_inst_missing, code_inst_orphan}
use katapult.Issue.{FilePath, path_name, str, Issue, error}
use katapult.Codebase.Data.{BlockMarker, CodeReference, CodeFile}
use katapult.Codebase.Query.{list_ids, Report}

-- `a - b` of sets.
unfoldable pub minus : List Text → List Text → List Text
minus [] b = []
minus (x ∷ a) b = if contains x b then minus a b else x ∷ minus a b

-- `d or {}`, and `d.get(k, set())`
abbrev pub or_nil {ℓ} : {A : Type ℓ} → Option (List A) → List A
or_nil none = []
or_nil (some xs) = xs

unfoldable pub docs_only_error : FilePath → Issue
unfolding error txt path_name
docs_only_error path =
    error (txt "traceability")
      (fstring (
        txt "@cpt markers found in `"
        ∷ path_name path
        ∷ txt "` but traceability mode is DOCS-ONLY — remove all markers or switch to FULL"
        ∷ []))
      path 1 (some code_docs_only) []

abbrev pub has_markers : CodeFile → Bool
has_markers f = not (is_nil f.scope_markers) || not (is_nil f.block_markers)

-- The branch for `DOCS-ONLY`.
unfoldable pub docs_only : List CodeFile → List Issue
unfolding docs_only_error
docs_only [] = []
docs_only (f ∷ fs) = if has_markers f then docs_only_error f.path ∷ docs_only fs else docs_only fs

-- `code_ids`
unfoldable pub code_ids : List CodeFile → List Text
unfolding list_ids
code_ids [] = []
code_ids (f ∷ fs) = list_ids f ++ code_ids fs

unfoldable pub orphan_error : FilePath → CodeReference → Issue
unfolding error txt path_name decimal
orphan_error path r =
    error (txt "traceability")
      (fstring (
        txt "Code marker references `"
        ∷ r.id
        ∷ txt "` in `"
        ∷ path_name path
        ∷ txt "` at line "
        ∷ decimal r.line
        ∷ txt " but this ID is not defined in any artifact"
        ∷ []))
      path r.line (some code_orphan_ref) ((txt "id", some (str r.id)) ∷ [])

-- The errors for the references of one file to ids that no artifact defines.
unfoldable pub orphans_in : List Text → FilePath → List CodeReference → List Issue
unfolding orphan_error
orphans_in ids path [] = []
orphans_in ids path (r ∷ rs) =
    if contains r.id ids
    then orphans_in ids path rs
    else orphan_error path r ∷ orphans_in ids path rs

unfoldable pub orphans : List Text → List CodeFile → List Issue
unfolding orphans_in
orphans ids [] = []
orphans ids (f ∷ fs) = orphans_in ids f.path f.references ++ orphans ids fs

-- `first_forbidden`: where each forbidden id is referenced first.
unfoldable pub forbidden_in :
    List Text → FilePath → List CodeReference → Dict (FilePath × ℕ) → Dict (FilePath × ℕ)
forbidden_in forbidden path [] found = found
forbidden_in forbidden path (r ∷ rs) found = forbidden_in forbidden path rs (
    if contains r.id forbidden && not (contains r.id (keys found))
    then insert r.id (path, r.line) found
    else found)

unfoldable pub first_forbidden :
    List Text → List CodeFile → Dict (FilePath × ℕ) → Dict (FilePath × ℕ)
unfolding forbidden_in
first_forbidden forbidden [] found = found
first_forbidden forbidden (f ∷ fs) found =
    first_forbidden forbidden fs (forbidden_in forbidden f.path f.references found)

-- `code_inst_by_id`: where the blocks of each id implement its instructions, the last block of an
-- instruction counting. Its inner keys are also the sets of `_code_inst_lookup`.
abbrev pub Insts : Type 0
Insts = Dict (Dict (FilePath × ℕ))

unfoldable pub insts_in : FilePath → List BlockMarker → Insts → Insts
insts_in path [] d = d
insts_in path (b ∷ bs) d =
    insts_in path bs (insert b.id (insert b.inst (path, b.start_line) (or_nil (lookup b.id d))) d)

unfoldable pub code_insts : List CodeFile → Insts → Insts
unfolding insts_in
code_insts [] d = d
code_insts (f ∷ fs) d = code_insts fs (insts_in f.path f.block_markers d)

-- `code_inst_by_id.get(id, {}).keys()`
unfoldable pub insts_of : Text → Insts → List Text
unfolding keys
insts_of id d = keys (or_nil (lookup id d))

-- `artifact_instances_all or artifact_instances`
abbrev pub all_or : Option (Dict (List Text)) → Option (Dict (List Text)) → Dict (List Text)
all_or none b = or_nil b
all_or (some []) b = or_nil b
all_or (some (e ∷ d)) b = e ∷ d

-- Some instruction that the artifacts give for the id has no block.
unfoldable pub is_incomplete : Dict (List Text) → Insts → Text → Bool
unfolding minus insts_of
is_incomplete all d id = not (is_nil (minus (or_nil (lookup id all)) (insts_of id d)))

unfoldable pub unchecked_error : Text → FilePath → ℕ → Issue
unfolding error txt decimal
unchecked_error id path line =
    error (txt "structure")
      (fstring (
        txt "`"
        ∷ id
        ∷ txt "` is marked to_code=\"true\" and referenced in code at line "
        ∷ decimal line
        ∷ txt " but its task checkbox is not checked in the artifact"
        ∷ []))
      path line (some code_task_unchecked) ((txt "id", some (str id)) ∷ [])

abbrev pub place_of : Option (FilePath × ℕ) → FilePath × ℕ
place_of none = ([], 0)
place_of (some p) = p

-- The loop over the sorted ids of `first_forbidden`.
unfoldable pub unchecked : Dict (List Text) → Insts → Dict (FilePath × ℕ) → List Text → List Issue
unfolding is_incomplete unchecked_error
unchecked all d found [] = []
unchecked all d found (id ∷ ids) =
    let (path, line) = place_of (lookup id found) in
    if is_incomplete all d id
    then unchecked all d found ids
    else unchecked_error id path line ∷ unchecked all d found ids
