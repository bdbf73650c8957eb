-- ===== src/Constraints/Index.antt =====
-- The index of `cross_validate_artifacts` of constraints.py: where each id is defined and
-- referenced.
pub mod Rows
use katapult.Base.{
  ℕ, Bool, true, false, not, List, [], ◌∷◌, ◌++◌, Option, none, some, if◌then◌else◌,
}
use katapult.Base.Lists.{is_nil, get_elem?}
use katapult.Base.Text.{Text, strip, text_eq, text_dec, contains}
use katapult.Base.Dict.{Dict, lookup, insert}
use katapult.Base.Unicode.{Unicode}
use katapult.Issue.{FilePath}
use katapult.Codebase.Cross.{or_nil}
use katapult.Document.Ids.{HitType, definition, reference, IdHit, scan_cpt_ids}
use katapult.Document.Outline.{headings_by_line}
use katapult.Constraints.Data.{HeadingConstraint, ArtifactKindConstraints, ArtifactRecord}
use katapult.Constraints.Kinds.{upper_kind, match_system_from_id}
use katapult.Constraints.Extract.{Vocabulary, extract_kind_from_id}

pub record Row : Type 0 where
  pub id : Text
  pub line : ℕ
  pub checked : Bool
  pub priority : Text
  pub has_task : Bool
  pub has_priority : Bool
  pub artifact_kind : Text
  pub artifact_path : FilePath
  pub system : Option Text
  pub id_kind : Option Text
  pub headings : List Text

pub record CrossIndex : Type 0 where
  pub defs_by_id : Dict (List Row)
  pub refs_by_id : Dict (List Row)
  pub present_kinds_by_system : Dict (List Text)
  pub refs_by_system_kind : Dict (Dict (List Row))

-- `d.get(k, [])`
unfoldable pub at_key {ℓ} : {A : Type ℓ} → Text → Dict (List A) → List A
unfolding lookup text_dec
at_key k d = or_nil (lookup k d)

-- `d.setdefault(k, []).append(x)`
unfoldable pub append_at : {A : Type 0} → Text → A → Dict (List A) → Dict (List A)
unfolding at_key insert text_dec
append_at k x d = insert k (at_key k d ++ x ∷ []) d

-- `if system`
abbrev pub given_system : Option Text → Option Text
given_system none = none
given_system (some []) = none
given_system (some (c ∷ s)) = some (c ∷ s)

module _ (u : Unicode) (v : Vocabulary) where
  unfoldable pub row_of : FilePath → Text → List (List Text) → IdHit → Row
  unfolding match_system_from_id extract_kind_from_id strip
  row_of path ak headings_at h =
      let hid = strip h.id in
      let system = match_system_from_id u v.systems v.tokens hid in
      record {
        id = hid;
        line = h.line;
        checked = h.checked;
        priority = h.priority;
        has_task = h.has_task;
        has_priority = h.has_priority;
        artifact_kind = ak;
        artifact_path = path;
        system = system;
        id_kind = extract_kind_from_id u v hid system;
        headings = active (get_elem? headings_at h.line);
      }
    where
      active : Option (List Text) → List Text
      active none = []
      active (some hs) = hs

  abbrev pub or_no_refs : Option (Dict (List Row)) → Dict (List Row)
  or_no_refs none = []
  or_no_refs (some d) = d

  abbrev pub present : Option Text → Text → Dict (List Text) → Dict (List Text)
  unfolding append_at
  present none ak d = d
  present (some system) ak d = append_at system ak d

  abbrev pub by_kind : Option Text → Row → Dict (Dict (List Row)) → Dict (Dict (List Row))
  unfolding append_at insert lookup text_dec
  by_kind none row d = d
  by_kind (some system) row d =
      insert system (append_at row.artifact_kind row (or_no_refs (lookup system d))) d

  unfoldable pub note_row : HitType → Row → CrossIndex → CrossIndex
  unfolding append_at present by_kind
  note_row definition row x = record x {
    defs_by_id = append_at row.id row x.defs_by_id;
    present_kinds_by_system =
        present (given_system row.system) row.artifact_kind x.present_kinds_by_system;
  }
  note_row reference row x = record x {
    refs_by_id = append_at row.id row x.refs_by_id;
    present_kinds_by_system =
        present (given_system row.system) row.artifact_kind x.present_kinds_by_system;
    refs_by_system_kind = by_kind (given_system row.system) row x.refs_by_system_kind;
  }

  -- A hit whose id is blank is passed over.
  unfoldable pub note_hit : FilePath → Text → List (List Text) → IdHit → CrossIndex → CrossIndex
  unfolding note_row row_of strip
  note_hit path ak headings_at h x =
      if is_nil (strip h.id) then x else note_row h.hit_type (row_of path ak headings_at h) x

  unfoldable pub note_hits :
      FilePath → Text → List (List Text) → List IdHit → CrossIndex → CrossIndex
  unfolding note_hit
  note_hits path ak headings_at [] x = x
  note_hits path ak headings_at (h ∷ hits) x =
      note_hits path ak headings_at hits (note_hit path ak headings_at h x)

  -- `heading_constraint_ids_by_line(path, constraints)`, by the artifact's lines, is an argument.
  module _ (constraint_ids : Option (List Text) → List HeadingConstraint → List (List Text)) where
    abbrev pub constrained : Option (List Text) → Option (List HeadingConstraint) → List (List Text)
    unfolding headings_by_line
    constrained lines none = headings_by_line lines
    constrained lines (some []) = headings_by_line lines
    constrained lines (some (hc ∷ hcs)) = constraint_ids lines (hc ∷ hcs)

    unfoldable pub active_headings : ArtifactRecord → List (List Text)
    unfolding constrained headings_by_line
    active_headings art = of_constraints art.constraints
      where
        of_constraints : Option ArtifactKindConstraints → List (List Text)
        of_constraints none = headings_by_line art.lines
        of_constraints (some c) = constrained art.lines c.headings

    abbrev pub or_active : ArtifactRecord → Option (List (List Text)) → List (List Text)
    unfolding active_headings
    or_active art none = active_headings art
    or_active art (some hs) = hs

    -- The loop over the artifacts, with the headings of the paths that it has met.
    unfoldable pub index_artifacts :
        List ArtifactRecord → Dict (List (List Text)) → CrossIndex → CrossIndex
    unfolding note_hits or_active scan_cpt_ids upper_kind insert lookup text_dec
    index_artifacts [] cache x = x
    index_artifacts (art ∷ arts) cache x =
        let headings_at = or_active art (lookup art.path cache) in
        index_artifacts arts (insert art.path headings_at cache) (
          note_hits art.path (upper_kind u art.artifact_kind) headings_at (scan_cpt_ids u art.lines)
            x)

abbrev pub no_rows : CrossIndex
no_rows = record {
  defs_by_id = [];
  refs_by_id = [];
  present_kinds_by_system = [];
  refs_by_system_kind = [];
}
