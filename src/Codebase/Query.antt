-- ===== src/Codebase/Query.antt =====
-- The methods of a scanned `CodeFile`: `list_ids`, `get`, `list`, `get_by_inst`, `validate`, and
-- the wrapper `validate_code_file`.
pub mod Unique
use katapult.Base.{
  ℕ, Bool, true, false, List, [], ◌∷◌, ◌++◌, Option, none, some, map, if◌then◌else◌,
}
use katapult.Base.Lists.{is_nil}
use katapult.Base.Sorted.{sorted_set}
use katapult.Base.Text.{Text, txt, text_eq, text_dec, join, decimal, fstring}
use katapult.Base.Dict.{Dict, lookup, insert}
use katapult.Base.Unicode.{Unicode}
use katapult.ErrorCodes.{marker_dup_scope, file_load_error}
use katapult.Issue.{FilePath, path_name, str, num, Issue, error}
use katapult.Codebase.Data.{ScopeMarker, BlockMarker, CodeReference, CodeFile}
use katapult.Codebase.Scan.{Read, from_path}

-- The ids of the references, in order.
abbrev pub reference_ids : List CodeReference → List Text
reference_ids [] = []
reference_ids (r ∷ rs) = r.id ∷ reference_ids rs

unfoldable pub list_ids : CodeFile → List Text
unfolding sorted_set
list_ids f = sorted_set (reference_ids f.references)

-- `"\n".join(block.content)` of the first block that passes the test.
unfoldable pub find_block : (BlockMarker → Bool) → List BlockMarker → Option Text
unfolding join txt
find_block p [] = none
find_block p (b ∷ bs) = if p b then some (join (txt "\n") b.content) else find_block p bs

unfoldable pub find_scope : Text → List ScopeMarker → Option Text
find_scope id [] = none
find_scope id (s ∷ ss) = if text_eq s.id id then some s.raw else find_scope id ss

abbrev pub or_else {ℓ} : {A : Type ℓ} → Option A → Option A → Option A
or_else none b = b
or_else (some a) b = some a

-- `get`: a block of the id if there is one, else the line of a scope marker of it.
unfoldable pub get : CodeFile → Text → Option Text
unfolding find_block find_scope
get f id =
    or_else (find_block (λ b. text_eq b.id id) f.block_markers) (find_scope id f.scope_markers)

-- `list`
unfoldable pub get_list : CodeFile → List Text → List (Option Text)
unfolding get
get_list f [] = []
get_list f (id ∷ ids) = get f id ∷ get_list f ids

unfoldable pub get_by_inst : CodeFile → Text → Option Text
unfolding find_block
get_by_inst f inst = find_block (λ b. text_eq b.inst inst) f.block_markers

-- The `{"errors": …, "warnings": …}` of the validators.
pub record Report : Type 0 where
  pub errors : List Issue
  pub warnings : List Issue

-- `f"{scope.kind}:{scope.id}:{scope.phase}"`
unfoldable pub scope_key : ScopeMarker → Text
unfolding txt decimal
scope_key s = fstring (s.kind ∷ txt ":" ∷ s.id ∷ txt ":" ∷ decimal s.phase ∷ [])

unfoldable pub dup_scope_error : FilePath → ScopeMarker → ℕ → Issue
unfolding error txt decimal path_name
dup_scope_error path s seen =
    error (txt "marker")
      (fstring (
        txt "Duplicate scope marker `"
        ∷ s.kind
        ∷ txt ":"
        ∷ s.id
        ∷ txt ":p"
        ∷ decimal s.phase
        ∷ txt "` in `"
        ∷ path_name path
        ∷ txt "` at line "
        ∷ decimal s.line
        ∷ txt " — first seen at line "
        ∷ decimal seen
        ∷ []))
      path s.line (some marker_dup_scope)
      ((txt "id", some (str s.id)) ∷ (txt "first_occurrence", some (num seen)) ∷ [])

-- The loop of `validate`: the errors for the scope markers whose key was seen before.
unfoldable pub dup_scopes : FilePath → List ScopeMarker → Dict ℕ → List Issue
unfolding dup_scope_error
dup_scopes path [] seen = []
dup_scopes path (s ∷ ss) seen = elim (lookup (scope_key s) seen) [
  | some line ↦ dup_scope_error path s line ∷ dup_scopes path ss seen
  | none ↦ dup_scopes path ss (insert (scope_key s) s.line seen)
]

unfoldable pub validate : CodeFile → Report
unfolding dup_scopes scope_key
validate f = record { errors = f.errors ++ dup_scopes f.path f.scope_markers []; warnings = [] }

unfoldable pub load_failure : FilePath → List Issue → List Issue
unfolding error txt
load_failure path [] =
    error (txt "file") (fstring (txt "Failed to load code file `" ∷ path ∷ txt "`" ∷ [])) path 1
      (some file_load_error) []
    ∷ []
load_failure path (e ∷ es) = e ∷ es

-- What `validate_code_file` makes of the two results of `from_path`.
unfoldable pub validated : FilePath → Option CodeFile → List Issue → Report
unfolding validate load_failure
validated path (some f) [] = validate f
validated path none errs = record { errors = load_failure path errs; warnings = [] }
validated path (some f) (e ∷ es) = record { errors = e ∷ es; warnings = [] }

-- `validate_code_file`
unfoldable pub validate_code_file : Unicode → Read → FilePath → Report
unfolding from_path validated
validate_code_file u r path = let (f, errs) = from_path u r path in validated path f errs
