-- ===== src/Codebase/Query/Unique.antt =====
-- Which ids a file lists, and when `validate` finds nothing.
use katapult.Base.{
  ℕ, ◌≡◌, refl, ◌∙◌, sym, ◌↔◌, ◌≢◌, true, false, List, [], ◌∷◌, none, some, arith, inl, inr,
  Option-cases, Bool-cases,
}
use katapult.Base.Text.{Text, text_dec, contains}
use katapult.Base.Members.{append_nil_iff}
use katapult.Base.Dict.{Dict, lookup, insert, lookup-insert}
use katapult.Issue.{FilePath}
use katapult.Codebase.Data.{ScopeMarker, CodeFile}
use katapult.Codebase.Query.{scope_key, dup_scopes, validate}

abbrev pub scope_keys : List ScopeMarker → List Text
scope_keys [] = []
scope_keys (s ∷ ss) = scope_key s ∷ scope_keys ss

-- No text stands twice in the list.
abbrev pub IsDistinct : List Text → Type 0
IsDistinct [] = Unit
IsDistinct (x ∷ xs) = (contains x xs ≡ false) × IsDistinct xs

abbrev Fresh : Dict ℕ → List Text → Type 0
Fresh seen xs = (k : Text) → contains k xs ≡ true → lookup k seen ≡ none

Fresh-insert_iff :
    (seen : Dict ℕ) (x : Text) (n : ℕ) (xs : List Text)
    → lookup x seen ≡ none
    → Fresh (insert x n seen) xs ↔ (Fresh seen xs × (contains x xs ≡ false))
Fresh-insert_iff seen x n xs e = (
  λ h. (
    λ k p. ground (arith, h k p, lookup-insert k x n seen),
    elim (Bool-cases (contains x xs)) [
      | inl p ↦ absurd (ground (arith, h x p, lookup-insert x x n seen))
      | inr p ↦ p
    ],
  ),
  λ (h, d) k p. elim (text_dec k x) [
    | yes same ↦ absurd (let q : contains x xs ≡ true = rw (← same) p in cc)
    | no differ ↦ ground (arith, h k p, lookup-insert k x n seen)
  ],
)

module _ (path : FilePath) where
  dup_scopes-fresh :
      (s : ScopeMarker) (ss : List ScopeMarker) (seen : Dict ℕ)
      → lookup (scope_key s) seen ≡ none
      → dup_scopes path (s ∷ ss) seen ≡ dup_scopes path ss (insert (scope_key s) s.line seen)
  unfolding dup_scopes
  dup_scopes-fresh s ss seen e = rw (e, dup_scopes)

  dup_scopes-seen :
      (s : ScopeMarker) (ss : List ScopeMarker) (seen : Dict ℕ) (n : ℕ)
      → lookup (scope_key s) seen ≡ some n
      → dup_scopes path (s ∷ ss) seen ≢ []
  unfolding dup_scopes
  dup_scopes-seen s ss seen n e = rw (e, dup_scopes) (λ h. cc)

  dup_scopes_nil_iff :
      (ss : List ScopeMarker) (seen : Dict ℕ)
      → (dup_scopes path ss seen ≡ []) ↔ (Fresh seen (scope_keys ss) × IsDistinct (scope_keys ss))
  dup_scopes_nil_iff [] seen = (λ e. (λ k h. absurd (cc), tt), λ h. unfold dup_scopes in refl)
  dup_scopes_nil_iff (s ∷ ss) seen = elim (Option-cases (lookup (scope_key s) seen)) [
    | inl e ↦
        let later = dup_scopes_nil_iff ss (insert (scope_key s) s.line seen) in
        let step = dup_scopes-fresh s ss seen e in
        let fresh = Fresh-insert_iff seen (scope_key s) s.line (scope_keys ss) e in
        (
          λ h.
              let (f, d) = later.0 (sym step ∙ h) in
              (
                λ k p. elim (text_dec k (scope_key s)) [
                  | yes same ↦ rw same e
                  | no differ ↦ (fresh.0 f).0 k (ground arith)
                ],
                ((fresh.0 f).1, d),
              ),
          λ (f, d). step ∙ later.1 (fresh.1 (λ k p. f k (ground arith), d.0), d.1),
        )
    | inr (n, e) ↦ (
      λ h. absurd (dup_scopes-seen s ss seen n e h),
      λ (f, d).
          absurd (let q : lookup (scope_key s) seen ≡ none = f (scope_key s) (ground arith) in cc),
    )
  ]

-- `validate` reports nothing exactly when the scan reported nothing and no two scope markers have
-- the same kind, id and phase key.
pub validate-clean :
    (f : CodeFile)
    → ((validate f).errors ≡ []) ↔ ((f.errors ≡ []) × IsDistinct (scope_keys f.scope_markers))
unfolding validate
validate-clean f =
    let parts = append_nil_iff f.errors (dup_scopes f.path f.scope_markers []) in
    let dups = dup_scopes_nil_iff f.path f.scope_markers [] in
    (
      λ h. ((parts.0 h).0, (dups.0 (parts.0 h).1).1),
      λ (e, d). parts.1 (e, dups.1 (λ k p. unfold lookup in refl, d)),
    )
