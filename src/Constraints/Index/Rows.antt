-- ===== src/Constraints/Index/Rows.antt =====
-- What the index holds under an id.
use mathlib.Core.List.{append-nil, append_assoc}
use katapult.Base.{
  ◌≡◌, refl, ap, ◌∙◌, sym, Bool, true, false, ◌&&◌, List, [], ◌∷◌, ◌++◌, Option, arith,
  if◌then◌else◌, Bool-cases, inl, inr,
}
use katapult.Base.Lists.{is_nil}
use katapult.Base.Text.{Text, strip, text_eq}
use katapult.Base.Dict.{Dict, lookup, insert, lookup-insert}
use katapult.Base.Unicode.{Unicode}
use katapult.Issue.{FilePath}
use katapult.Codebase.Cross.{or_nil}
use katapult.Document.Ids.{HitType, definition, reference, IdHit, scan_cpt_ids}
use katapult.Constraints.Data.{HeadingConstraint, ArtifactRecord}
use katapult.Constraints.Kinds.{upper_kind}
use katapult.Constraints.Extract.{Vocabulary}
use katapult.Constraints.Index.{
  Row, CrossIndex, no_rows, at_key, append_at, row_of, note_row, note_hit, note_hits, or_active,
  index_artifacts,
}

-- The rows of the type under the id, in the order of the list.
unfoldable pub rows_under : (HitType → Bool) → Text → List (HitType × Row) → List Row
rows_under p k [] = []
rows_under p k ((t, row) ∷ rows) =
    let rest = rows_under p k rows in if p t && text_eq k row.id then row ∷ rest else rest

abbrev pub is_def : HitType → Bool
is_def definition = true
is_def reference = false

abbrev pub is_ref : HitType → Bool
is_ref definition = false
is_ref reference = true

same_of : (j k : Text) → text_eq j k ≡ true → j ≡ k
same_of j k h = ground arith

at_key-append_at :
    (j k : Text) (row : Row) (d : Dict (List Row))
    → at_key j (append_at k row d) ≡ at_key j d ++ (if text_eq j k then row ∷ [] else [])
unfolding at_key append_at
at_key-append_at j k row d =
    ap or_nil (lookup-insert j k (or_nil (lookup k d) ++ row ∷ []) d)
    ∙ elim (Bool-cases (text_eq j k)) [
      | inl e ↦ rw (e, same_of j k e) refl
      | inr e ↦ rw e (sym (append-nil (or_nil (lookup j d))))
    ]

rows_under-append :
    (p : HitType → Bool) (k : Text) (a b : List (HitType × Row))
    → rows_under p k (a ++ b) ≡ rows_under p k a ++ rows_under p k b
unfolding rows_under
rows_under-append p k [] b = refl
rows_under-append p k ((t, row) ∷ a) b = ground (arith, rows_under-append p k a b)

module _ (u : Unicode) (v : Vocabulary) where
  -- The row of a hit whose id is not blank.
  unfoldable pub typed_row : FilePath → Text → List (List Text) → IdHit → List (HitType × Row)
  unfolding row_of strip
  typed_row path ak headings_at h =
      if is_nil (strip h.id) then [] else (h.hit_type, row_of u v path ak headings_at h) ∷ []

  unfoldable pub typed_rows : FilePath → Text → List (List Text) → List IdHit → List (HitType × Row)
  unfolding typed_row
  typed_rows path ak headings_at [] = []
  typed_rows path ak headings_at (h ∷ hits) =
      typed_row path ak headings_at h ++ typed_rows path ak headings_at hits

  note_row-defs :
      (k : Text) (t : HitType) (row : Row) (x : CrossIndex)
      → at_key k (note_row u v t row x).defs_by_id
        ≡ at_key k x.defs_by_id ++ rows_under is_def k ((t, row) ∷ [])
  unfolding note_row rows_under
  note_row-defs k definition row x = at_key-append_at k row.id row x.defs_by_id
  note_row-defs k reference row x = sym (append-nil (at_key k x.defs_by_id))

  note_row-refs :
      (k : Text) (t : HitType) (row : Row) (x : CrossIndex)
      → at_key k (note_row u v t row x).refs_by_id
        ≡ at_key k x.refs_by_id ++ rows_under is_ref k ((t, row) ∷ [])
  unfolding note_row rows_under
  note_row-refs k definition row x = sym (append-nil (at_key k x.refs_by_id))
  note_row-refs k reference row x = at_key-append_at k row.id row x.refs_by_id

  module _ (constraint_ids : Option (List Text) → List HeadingConstraint → List (List Text)) where
    -- The rows of all artifacts in order, each with whether it defines or references.
    unfoldable pub all_rows : List ArtifactRecord → Dict (List (List Text)) → List (HitType × Row)
    unfolding typed_rows or_active scan_cpt_ids upper_kind insert lookup
    all_rows [] cache = []
    all_rows (art ∷ arts) cache =
        let headings_at = or_active u v constraint_ids art (lookup art.path cache) in
        typed_rows art.path (upper_kind u art.artifact_kind) headings_at (scan_cpt_ids u art.lines)
        ++ all_rows arts (insert art.path headings_at cache)

    -- For a part of the index to which each row adds what the test admits.
    module _ (p : HitType → Bool) (part : CrossIndex → Dict (List Row))
        (step : (k : Text) (t : HitType) (row : Row) (x : CrossIndex)
          → at_key k (part (note_row u v t row x))
            ≡ at_key k (part x) ++ rows_under p k ((t, row) ∷ [])) where
      hit_part :
          (k : Text) (b : Bool) (t : HitType) (row : Row) (x : CrossIndex)
          → at_key k (part (if b then x else note_row u v t row x))
            ≡ at_key k (part x) ++ rows_under p k (if b then [] else (t, row) ∷ [])
      hit_part k true t row x = unfold rows_under in sym (append-nil (at_key k (part x)))
      hit_part k false t row x = step k t row x

      note_hit_part :
          (k : Text) (path : FilePath) (ak : Text) (headings_at : List (List Text)) (h : IdHit)
          (x : CrossIndex)
          → at_key k (part (note_hit u v path ak headings_at h x))
            ≡ at_key k (part x) ++ rows_under p k (typed_row path ak headings_at h)
      unfolding note_hit typed_row
      note_hit_part k path ak headings_at h x = hit_part k (is_nil (strip h.id)) h.hit_type _ x

      joined :
          (k : Text) (a b c : List Row) (x y : List (HitType × Row))
          → a ≡ b ++ rows_under p k x
          → c ≡ a ++ rows_under p k y
          → c ≡ b ++ rows_under p k (x ++ y)
      joined k a b c x y e f =
          f
          ∙ ap (λ l. l ++ rows_under p k y) e
          ∙ append_assoc b (rows_under p k x) (rows_under p k y)
          ∙ ap (λ l. b ++ l) (sym (rows_under-append p k x y))

      note_hits_part :
          (k : Text) (path : FilePath) (ak : Text) (headings_at : List (List Text))
          (hits : List IdHit) (x : CrossIndex)
          → at_key k (part (note_hits u v path ak headings_at hits x))
            ≡ at_key k (part x) ++ rows_under p k (typed_rows path ak headings_at hits)
      unfolding note_hits typed_rows
      note_hits_part k path ak headings_at [] x =
          unfold rows_under in sym (append-nil (at_key k (part x)))
      note_hits_part k path ak headings_at (h ∷ hits) x =
          joined k _ _ _ _ _ (note_hit_part k path ak headings_at h x)
            (note_hits_part k path ak headings_at hits (note_hit u v path ak headings_at h x))

      index_part :
          (k : Text) (arts : List ArtifactRecord) (cache : Dict (List (List Text))) (x : CrossIndex)
          → at_key k (part (index_artifacts u v constraint_ids arts cache x))
            ≡ at_key k (part x) ++ rows_under p k (all_rows arts cache)
      unfolding index_artifacts all_rows
      index_part k [] cache x = unfold rows_under in sym (append-nil (at_key k (part x)))
      index_part k (art ∷ arts) cache x =
          joined k _ _ _ _ _ (note_hits_part k art.path _ _ (scan_cpt_ids u art.lines) x)
            (index_part k arts _ _)

    -- Under each id, the index holds the rows of the definitions of that id in all artifacts, and
    -- those of the references, in their order.
    pub index_artifacts-rows :
        (k : Text) (arts : List ArtifactRecord)
        → (at_key k (index_artifacts u v constraint_ids arts [] no_rows).defs_by_id
            ≡ rows_under is_def k (all_rows arts []))
          × (at_key k (index_artifacts u v constraint_ids arts [] no_rows).refs_by_id
              ≡ rows_under is_ref k (all_rows arts []))
    index_artifacts-rows k arts = (
      index_part is_def (λ x. x.defs_by_id) note_row-defs k arts [] no_rows ∙ unfold at_key in refl,
      index_part is_ref (λ x. x.refs_by_id) note_row-refs k arts [] no_rows ∙ unfold at_key in refl,
    )
