-- ===== src/Constraints/Tests.antt =====
-- Runs of the cross validation of artifacts, and its laws at those runs.
use mathlib.Core.List.{reverse}
use katapult.Base.{◌≡◌, ◌↔◌, refl, Bool, true, false, List, [], ◌∷◌, map, Option, none, some}
use katapult.Base.Lists.{all}
use katapult.Base.Text.{Text, txt, text_dec, join}
use katapult.Base.Unicode.{ascii}
use katapult.ErrorCodes.{ref_no_definition, ref_done_def_not_done, ref_missing_from_kind}
use katapult.Document.Outline.{headings_by_line}
use katapult.Constraints.Data.{
  ReferenceRule, HeadingConstraint, IdConstraint, ArtifactKindConstraints, ArtifactRecord,
}
use katapult.Constraints.Extract.{Vocabulary, extract_kind_from_id}
use katapult.Constraints.Index.{Row, no_rows, at_key, index_artifacts}
use katapult.Constraints.Index.Rows.{rows_under, is_def, is_ref, all_rows, index_artifacts-rows}
use katapult.Constraints.Structure.{structure_errors}
use katapult.Constraints.Structure.Sound.{is_consistent, structure_errors-consistent}
use katapult.Constraints.Toml.{
  text, integer, boolean, Entries, no_entries, entry, table, err, parse_heading_constraint,
}
use katapult.Constraints.Toml.Accepts.{is_ok}
use katapult.Constraints.Cross.{cross_validate_artifacts}

abbrev rule : ReferenceRule
rule = record { coverage = some true; task = none; priority = none; headings = none }

abbrev requirement : IdConstraint
unfolding txt
requirement = record {
  kind = txt "fr";
  required = true;
  name = none;
  description = none;
  template = none;
  task = none;
  priority = none;
  to_code = none;
  headings = none;
  references = some ((txt "DESIGN", rule) ∷ []);
}

abbrev prd_constraints : ArtifactKindConstraints
unfolding requirement
prd_constraints = record {
  name = none;
  description = none;
  defined_id = requirement ∷ [];
  headings = none;
  toc = true;
}

abbrev design_constraints : ArtifactKindConstraints
design_constraints = record {
  name = none;
  description = none;
  defined_id = [];
  headings = none;
  toc = true;
}

abbrev prd : ArtifactRecord
unfolding prd_constraints txt
prd = record {
  path = txt "PRD.md";
  artifact_kind = txt "PRD";
  constraints = some prd_constraints;
  lines = some (txt "- [x] **ID**: `cpt-s-fr-a`" ∷ []);
}

abbrev design_of : List Text → ArtifactRecord
unfolding txt
design_of lines = record {
  path = txt "DESIGN.md";
  artifact_kind = txt "DESIGN";
  constraints = some design_constraints;
  lines = some lines;
}

-- A design that references the requirement, and one that references an unknown id instead.
abbrev artifacts : List ArtifactRecord
unfolding prd design_of txt
artifacts = prd ∷ design_of (txt "- [x] `cpt-s-fr-a`" ∷ []) ∷ []

abbrev broken : List ArtifactRecord
unfolding prd design_of txt
broken = prd ∷ design_of (txt "`cpt-s-fr-b`" ∷ []) ∷ []

abbrev as_given : List Text → List Text
as_given ts = ts

abbrev repr : List Text → Text
unfolding txt join
repr ts = join (txt ", ") ts

abbrev ids_by_line : Option (List Text) → List HeadingConstraint → List (List Text)
unfolding headings_by_line
ids_by_line lines hcs = headings_by_line lines

abbrev systems : Option (List Text)
unfolding txt
systems = some (txt "s" ∷ [])

cross_validate_artifacts_result :
    cross_validate_artifacts ascii as_given repr ids_by_line artifacts systems ≡ ([], [])
unfolding cross_validate_artifacts artifacts systems repr ids_by_line txt text_dec
cross_validate_artifacts_result = refl

cross_validate_artifacts_unknown :
    map (λ e. e.code) (cross_validate_artifacts ascii as_given repr ids_by_line broken systems).0
    ≡ some ref_no_definition ∷ some ref_missing_from_kind ∷ []
unfolding cross_validate_artifacts broken systems repr ids_by_line txt text_dec
cross_validate_artifacts_unknown = refl

abbrev words : Vocabulary
unfolding txt
words = record {
  systems = txt "s" ∷ [];
  nested = [];
  tokens = txt "use" ∷ txt "use-case" ∷ [];
  iteration = as_given;
}

index_artifacts-rows_example :
    (at_key
        (txt "cpt-s-fr-a")
        (index_artifacts ascii words ids_by_line artifacts [] no_rows).defs_by_id
      ≡ rows_under is_def (txt "cpt-s-fr-a") (all_rows ascii words ids_by_line artifacts []))
    × (at_key
          (txt "cpt-s-fr-a")
          (index_artifacts ascii words ids_by_line artifacts [] no_rows).refs_by_id
        ≡ rows_under is_ref (txt "cpt-s-fr-a") (all_rows ascii words ids_by_line artifacts []))
index_artifacts-rows_example =
    index_artifacts-rows ascii words ids_by_line (txt "cpt-s-fr-a") artifacts

-- A definition that is not done, and a reference that is.
abbrev row_of_task : Bool → Row
unfolding txt
row_of_task checked = record {
  id = txt "cpt-s-fr-a";
  line = 1;
  checked = checked;
  priority = [];
  has_task = true;
  has_priority = false;
  artifact_kind = txt "PRD";
  artifact_path = txt "PRD.md";
  system = some (txt "s");
  id_kind = some (txt "fr");
  headings = [];
}

structure_errors_result :
    map
      (λ e. e.code)
      (structure_errors ascii []
        ((txt "cpt-s-fr-a", row_of_task false ∷ []) ∷ [])
        ((txt "cpt-s-fr-a", row_of_task true ∷ []) ∷ []))
    ≡ some ref_done_def_not_done ∷ []
unfolding structure_errors row_of_task txt text_dec
structure_errors_result = refl

structure_errors-consistent_example :
    (structure_errors ascii []
        ((txt "cpt-s-fr-a", row_of_task false ∷ []) ∷ [])
        ((txt "cpt-s-fr-a", row_of_task true ∷ []) ∷ [])
      ≡ [])
    ↔ (all
          (is_consistent ascii [] ((txt "cpt-s-fr-a", row_of_task false ∷ []) ∷ []))
          ((txt "cpt-s-fr-a", row_of_task true ∷ []) ∷ [])
        ≡ true)
structure_errors-consistent_example =
    structure_errors-consistent ascii [] ((txt "cpt-s-fr-a", row_of_task false ∷ []) ∷ [])
      ((txt "cpt-s-fr-a", row_of_task true ∷ []) ∷ [])

-- Two tokens of which one begins the other: the kind is that which Python's set gives first.
extract_kind_from_id_first :
    extract_kind_from_id ascii words (txt "cpt-s-x-use-case-y") (some (txt "s")) ≡ some (txt "use")
unfolding extract_kind_from_id words txt text_dec
extract_kind_from_id_first = refl

extract_kind_from_id_reversed :
    extract_kind_from_id ascii
      (record words { iteration = reverse })
      (txt "cpt-s-x-use-case-y")
      (some (txt "s"))
    ≡ some (txt "use-case")
unfolding extract_kind_from_id words txt text_dec
extract_kind_from_id_reversed = refl

-- The table of a heading, whose level is one too deep.
abbrev too_deep : Entries
unfolding txt
too_deep = entry (txt "level") (integer 7) (entry (txt "id") (text (txt "goals")) no_entries)

abbrev compiles_all : Text → Option Text
compiles_all p = none

parse_heading_constraint_deep :
    parse_heading_constraint compiles_all (table too_deep) none
    ≡ err (txt "Heading constraint field 'level' must be integer 1-6")
unfolding parse_heading_constraint too_deep txt text_dec
parse_heading_constraint_deep = refl

-- A boolean is taken for a level.
parse_heading_constraint_boolean :
    is_ok (
      parse_heading_constraint compiles_all
        (table (entry (txt "level") (boolean true) no_entries))
        none)
    ≡ true
unfolding parse_heading_constraint txt text_dec
parse_heading_constraint_boolean = refl
