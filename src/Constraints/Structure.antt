-- ===== src/Constraints/Structure.antt =====
-- The four loops of `cross_validate_artifacts` of constraints.py over the references: that each has
-- a definition, and that the task checkboxes of both agree.
pub mod Parts
pub mod Sound
use katapult.Base.{
  ℕ, Bool, true, false, not, ◌&&◌, ◌||◌, List, [], ◌∷◌, ◌++◌, map, Option, none, some,
  if◌then◌else◌,
}
use katapult.Base.Lists.{is_nil, all}
use katapult.Base.Text.{Text, txt, text_dec, contains, fstring}
use katapult.Base.Dict.{Dict, lookup, keys}
use katapult.Base.Unicode.{Unicode}
use katapult.ErrorCodes.{
  ref_no_definition, ref_done_def_not_done, def_done_ref_not_done, ref_task_def_no_task,
}
use katapult.Issue.{Extra, str, Issue, error}
use katapult.Constraints.Kinds.{is_external_system_ref}
use katapult.Constraints.Index.{Row, at_key}

unfoldable pub no_definition_error : Text → Row → Issue
unfolding error txt
no_definition_error rid r =
    error (txt "structure")
      (fstring
        (txt "Reference to `" ∷ rid ∷ txt "` has no matching definition in any artifact" ∷ []))
      r.artifact_path r.line (some ref_no_definition) ((txt "id", some (str rid)) ∷ [])

unfoldable pub not_done_error : Text → Row → Issue
unfolding error txt
not_done_error rid r =
    error (txt "structure")
      (fstring (
        txt "Reference to `"
        ∷ rid
        ∷ txt "` is checked [x] but its definition is still unchecked"
        ∷ []))
      r.artifact_path r.line (some ref_done_def_not_done) ((txt "id", some (str rid)) ∷ [])

abbrev pub first_kind : List Row → Option Text
first_kind [] = none
first_kind (d ∷ ds) = some d.artifact_kind

unfoldable pub done_error : Text → List Row → Row → Issue
unfolding error txt
done_error rid tasked r =
    error (txt "structure")
      (fstring (
        txt "Definition of `"
        ∷ rid
        ∷ txt "` is checked [x] but reference in "
        ∷ r.artifact_kind
        ∷ txt " artifact is still unchecked"
        ∷ []))
      r.artifact_path r.line (some def_done_ref_not_done)
      ((txt "id", some (str rid)) ∷ (txt "def_artifact_kind", kind_extra (first_kind tasked)) ∷ [])
  where
    kind_extra : Option Text → Option Extra
    kind_extra none = none
    kind_extra (some k) = some (str k)

unfoldable pub no_task_error : Text → Row → Issue
unfolding error txt
no_task_error rid r =
    error (txt "structure")
      (fstring (
        txt "Reference to `"
        ∷ rid
        ∷ txt "` has task checkbox but its definition has no task tracking"
        ∷ []))
      r.artifact_path r.line (some ref_task_def_no_task) ((txt "id", some (str rid)) ∷ [])

-- The loop for definitions that are missing.
unfoldable pub undefined_refs : Unicode → List Text → Dict (List Row) → Dict (List Row) → List Issue
unfolding is_external_system_ref no_definition_error keys text_dec
undefined_refs u systems defs [] = []
undefined_refs u systems defs ((rid, rows) ∷ refs) =
    let rest = undefined_refs u systems defs refs in
    if is_external_system_ref u systems rid || contains rid (keys defs)
    then rest
    else map (no_definition_error rid) rows ++ rest

-- The definitions that are tracked as tasks and not done, each with an error for the reference.
unfoldable pub not_done : Text → Row → List Row → List Issue
unfolding not_done_error
not_done rid r [] = []
not_done rid r (d ∷ ds) =
    let rest = not_done rid r ds in
    if d.has_task && not d.checked then not_done_error rid r ∷ rest else rest

unfoldable pub not_done_rows : Text → List Row → List Row → List Issue
unfolding not_done
not_done_rows rid ds [] = []
not_done_rows rid ds (r ∷ rows) =
    (if r.has_task && r.checked then not_done rid r ds else []) ++ not_done_rows rid ds rows

-- The loop for references that are done while a definition is not.
unfoldable pub refs_done : Dict (List Row) → Dict (List Row) → List Issue
unfolding not_done_rows at_key
refs_done defs [] = []
refs_done defs ((rid, rows) ∷ refs) =
    not_done_rows rid (at_key rid defs) rows ++ refs_done defs refs

-- `[d for d in defs if d.has_task]`
unfoldable pub with_task : List Row → List Row
with_task [] = []
with_task (d ∷ ds) = let rest = with_task ds in if d.has_task then d ∷ rest else rest

unfoldable pub unchecked_rows : Text → List Row → List Row → List Issue
unfolding done_error
unchecked_rows rid tasked [] = []
unchecked_rows rid tasked (r ∷ rows) =
    let rest = unchecked_rows rid tasked rows in
    if r.has_task && not r.checked then done_error rid tasked r ∷ rest else rest

-- One turn of the loop for references that are not done while all definitions are.
unfoldable pub defs_done_at : Text → List Row → List Row → List Issue
unfolding unchecked_rows with_task all
defs_done_at rid ds rows =
    if is_nil ds
    then []
    else if is_nil (with_task ds)
    then []
    else if not (all (λ d. d.checked) (with_task ds))
    then []
    else unchecked_rows rid (with_task ds) rows

unfoldable pub defs_done : Dict (List Row) → Dict (List Row) → List Issue
unfolding defs_done_at at_key
defs_done defs [] = []
defs_done defs ((rid, rows) ∷ refs) = defs_done_at rid (at_key rid defs) rows ++ defs_done defs refs

-- `any(d.has_task for d in defs)`
unfoldable pub any_task : List Row → Bool
any_task [] = false
any_task (d ∷ ds) = d.has_task || any_task ds

unfoldable pub untracked_rows : Text → List Row → List Row → List Issue
unfolding no_task_error any_task
untracked_rows rid ds [] = []
untracked_rows rid ds (r ∷ rows) =
    let rest = untracked_rows rid ds rows in
    if r.has_task && not (any_task ds) then no_task_error rid r ∷ rest else rest

-- The loop for references with a task whose definition has none.
unfoldable pub untracked : Dict (List Row) → Dict (List Row) → List Issue
unfolding untracked_rows at_key
untracked defs [] = []
untracked defs ((rid, rows) ∷ refs) =
    let ds = at_key rid defs in
    (if is_nil ds then [] else untracked_rows rid ds rows) ++ untracked defs refs

-- The errors of the four loops, in their order.
unfoldable pub structure_errors :
    Unicode → List Text → Dict (List Row) → Dict (List Row) → List Issue
unfolding undefined_refs refs_done defs_done untracked
structure_errors u systems defs refs =
    undefined_refs u systems defs refs
    ++ (refs_done defs refs ++ (defs_done defs refs ++ untracked defs refs))
