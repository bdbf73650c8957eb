-- ===== src/Constraints/Structure/Sound.antt =====
-- What it means that the loops over the references report nothing.
use katapult.Base.{
  ◌≡◌, refl, ap, ◌∙◌, ◌↔◌, Bool, true, false, ◌&&◌, ◌||◌, List, [], ◌∷◌, ◌++◌, map, if◌then◌else◌,
}
use katapult.Base.Lists.{is_nil, all}
use katapult.Base.Text.{Text, contains}
use katapult.Base.Dict.{Dict, keys}
use katapult.Base.Unicode.{Unicode}
use katapult.Issue.{Issue}
use katapult.Constraints.Kinds.{is_external_system_ref}
use katapult.Constraints.Index.{Row, at_key}
use katapult.Constraints.Structure.Parts.{
  is_settled, is_undone, is_tracked, is_undone_ref, is_nil-append, all_and, all_same,
  not_done_rows_nil, defs_done_nil, untracked_nil, undefined_nil, settled_parts, nil_iff,
}
use katapult.Constraints.Structure.{
  no_definition_error, undefined_refs, not_done_rows, refs_done, defs_done_at, defs_done,
  untracked_rows, untracked, structure_errors,
}

-- The id is another system's or has a definition, and each reference to it is settled.
unfoldable pub is_consistent : Unicode → List Text → Dict (List Row) → Text × List Row → Bool
unfolding is_settled is_external_system_ref at_key all keys
is_consistent u systems defs (rid, rows) =
    all
      (λ r.
        (is_external_system_ref u systems rid || contains rid (keys defs))
        && is_settled (at_key rid defs) r)
      rows

module _ (u : Unicode) (systems : List Text) (defs : Dict (List Row)) where
  abbrev is_known : Text → Bool
  is_known rid = is_external_system_ref u systems rid || contains rid (keys defs)

  undefined_refs_nil :
      (refs : Dict (List Row))
      → is_nil (undefined_refs u systems defs refs) ≡ all (λ e. all (λ r. is_known e.0) e.1) refs
  unfolding undefined_refs all
  undefined_refs_nil [] = refl
  undefined_refs_nil ((rid, rows) ∷ refs) =
      skipped (is_known rid) (map (no_definition_error rid) rows)
        (undefined_refs u systems defs refs)
      ∙ is_nil-append (if is_known rid then [] else map (no_definition_error rid) rows) _
      ∙ rw (undefined_nil (is_known rid) rid rows, undefined_refs_nil refs) refl
    where
      skipped :
          (b : Bool) (xs rest : List Issue)
          → is_nil (if b then rest else xs ++ rest) ≡ is_nil ((if b then [] else xs) ++ rest)
      skipped true xs rest = refl
      skipped false xs rest = refl

  refs_done_nil :
      (refs : Dict (List Row))
      → is_nil (refs_done defs refs) ≡ all (λ e. all (is_undone_ref (at_key e.0 defs)) e.1) refs
  unfolding refs_done all
  refs_done_nil [] = refl
  refs_done_nil ((rid, rows) ∷ refs) =
      is_nil-append (not_done_rows rid (at_key rid defs) rows) _
      ∙ rw (not_done_rows_nil rid (at_key rid defs) rows, refs_done_nil refs) refl

  defs_done_entries_nil :
      (refs : Dict (List Row))
      → is_nil (defs_done defs refs) ≡ all (λ e. all (is_undone (at_key e.0 defs)) e.1) refs
  unfolding defs_done all
  defs_done_entries_nil [] = refl
  defs_done_entries_nil ((rid, rows) ∷ refs) =
      is_nil-append (defs_done_at rid (at_key rid defs) rows) _
      ∙ rw (defs_done_nil rid (at_key rid defs) rows, defs_done_entries_nil refs) refl

  untracked_entries_nil :
      (refs : Dict (List Row))
      → is_nil (untracked defs refs) ≡ all (λ e. all (is_tracked (at_key e.0 defs)) e.1) refs
  unfolding untracked all
  untracked_entries_nil [] = refl
  untracked_entries_nil ((rid, rows) ∷ refs) =
      is_nil-append
        (if is_nil (at_key rid defs) then [] else untracked_rows rid (at_key rid defs) rows) _
      ∙ rw (untracked_nil rid (at_key rid defs) rows, untracked_entries_nil refs) refl

  -- What the four loops ask of one id.
  entry_parts :
      (e : Text × List Row)
      → (all (λ r. is_known e.0) e.1
          && (all (is_undone_ref (at_key e.0 defs)) e.1
              && (all (is_undone (at_key e.0 defs)) e.1 && all (is_tracked (at_key e.0 defs)) e.1)))
        ≡ is_consistent u systems defs e
  unfolding is_consistent
  entry_parts (rid, rows) =
      let ds = at_key rid defs in
      rw
        (
          all_and (is_undone ds) (is_tracked ds) rows,
          all_and (is_undone_ref ds) (λ r. is_undone ds r && is_tracked ds r) rows,
          all_and (λ r. is_known rid)
              (λ r. is_undone_ref ds r && (is_undone ds r && is_tracked ds r)) rows,
        )
        (all_same _ _ rows (λ r. ap (λ b. is_known rid && b) (settled_parts ds r)))

  pub structure_errors_nil :
      (refs : Dict (List Row))
      → is_nil (structure_errors u systems defs refs) ≡ all (is_consistent u systems defs) refs
  unfolding structure_errors
  structure_errors_nil refs =
      is_nil-append (undefined_refs u systems defs refs) _
      ∙ rw
          (
            is_nil-append (refs_done defs refs) (defs_done defs refs ++ untracked defs refs),
            is_nil-append (defs_done defs refs) (untracked defs refs),
            undefined_refs_nil refs,
            refs_done_nil refs,
            defs_done_entries_nil refs,
            untracked_entries_nil refs,
          )
          (joined refs)
    where
      joined :
          (refs : Dict (List Row))
          → (all (λ e. all (λ r. is_known e.0) e.1) refs
              && (all (λ e. all (is_undone_ref (at_key e.0 defs)) e.1) refs
                  && (all (λ e. all (is_undone (at_key e.0 defs)) e.1) refs
                      && all (λ e. all (is_tracked (at_key e.0 defs)) e.1) refs)))
            ≡ all (is_consistent u systems defs) refs
      joined refs =
          rw
            (
              all_and (λ e. all (is_undone (at_key e.0 defs)) e.1)
                  (λ e. all (is_tracked (at_key e.0 defs)) e.1) refs,
              all_and (λ e. all (is_undone_ref (at_key e.0 defs)) e.1) _ refs,
              all_and (λ e. all (λ r. is_known e.0) e.1) _ refs,
            )
            (all_same _ _ refs entry_parts)

  -- The loops over the references report nothing exactly when every reference is to another
  -- system's id or to one that is defined, and each reference that is tracked as a task, to an id
  -- with definitions, has a definition that is tracked too and is done exactly when all of those
  -- are.
  pub structure_errors-consistent :
      (refs : Dict (List Row))
      → (structure_errors u systems defs refs ≡ [])
        ↔ (all (is_consistent u systems defs) refs ≡ true)
  structure_errors-consistent refs =
      nil_iff (structure_errors u systems defs refs) _ (structure_errors_nil refs)
