-- ===== src/Diff/Classify/Exact.antt =====
-- The report of `_classify_kit_files` against the two sides.
use katapult.Base.{
  ◌≡◌, refl, ◌∙◌, sym, ◌↔◌, Bool, true, false, ◌&&◌, ◌||◌, List, [], ◌∷◌, ◌++◌, Option, none, some,
  arith, if◌then◌else◌, inl, inr, Bool-cases,
}
use katapult.Base.Sorted.{sorted_set, contains-sorted_set}
use katapult.Base.Text.{Text, text_eq, text_dec, contains}
use katapult.Base.Members.{contains-append, contains-concat, eq-nil_iff}
use katapult.Base.Dict.{Dict, lookup, keys, lookup-keys}
use katapult.Diff.Codec.{Bytes}
use katapult.Diff.Classify.{DiffReport, has_changes, empty_report, classify_one, classify_paths}
use katapult.Diff.Classify.{classify_kit_files}

pub data Class : Type 0 where
  is_added is_removed is_modified is_unchanged is_absent : Class

-- What a path is, from the bytes in the source and in the user's copy.
unfoldable pub class_of : Option Bytes → Option Bytes → Class
class_of (some s) none = is_added
class_of none (some u) = is_removed
class_of (some s) (some u) = if text_eq s u then is_unchanged else is_modified
class_of none none = is_absent

abbrev pub paths_of : DiffReport → Class → List Text
paths_of r is_added = r.added
paths_of r is_removed = r.removed
paths_of r is_modified = r.modified
paths_of r is_unchanged = r.unchanged
paths_of r is_absent = []

abbrev pub same_class : Class → Class → Bool
same_class is_added is_added = true
same_class is_removed is_removed = true
same_class is_modified is_modified = true
same_class is_unchanged is_unchanged = true
same_class is_absent is_absent = true
same_class _ _ = false

abbrev pub is_present : Class → Bool
is_present is_absent = false
is_present _ = true

-- One step adds the path to the list of its class, and to no other.
contains-classify_one :
    (k p : Text) (s u : Option Bytes) (r : DiffReport) (c : Class)
    → is_present c ≡ true
    → contains k (paths_of (classify_one p s u r) c)
      ≡ (contains k (paths_of r c) || (text_eq k p && same_class c (class_of s u)))
unfolding classify_one class_of
contains-classify_one k p s u r is_added h = ground (arith, contains-concat k p r.added)
contains-classify_one k p s u r is_removed h = ground (arith, contains-concat k p r.removed)
contains-classify_one k p s u r is_modified h = ground (arith, contains-concat k p r.modified)
contains-classify_one k p s u r is_unchanged h = ground (arith, contains-concat k p r.unchanged)
contains-classify_one k p s u r is_absent h = absurd (cc)

nothing_yet : (k : Text) (c : Class) → contains k (paths_of empty_report c) ≡ false
nothing_yet k is_added = refl
nothing_yet k _ = refl

not_absent : (c : Class) → is_present c ≡ true → same_class c is_absent ≡ false
not_absent is_absent h = cc
not_absent _ h = refl

module _ (source user : Dict Bytes) where
  contains-classify_paths :
      (k : Text) (ps : List Text) (r : DiffReport) (c : Class)
      → is_present c ≡ true
      → contains k (paths_of (classify_paths source user ps r) c) ≡ (
          contains k (paths_of r c)
          || (contains k ps && same_class c (class_of (lookup k source) (lookup k user))))
  unfolding classify_paths
  contains-classify_paths k [] r c h = ground arith
  contains-classify_paths k (p ∷ ps) r c h =
      let one = classify_one p (lookup p source) (lookup p user) r in
      let rest = contains-classify_paths k ps one c h in
      let step = contains-classify_one k p (lookup p source) (lookup p user) r c h in
      elim (text_dec k p) [
        | yes same ↦ rest ∙ rw (step, same) (ground arith)
        | no differ ↦ rest ∙ rw step (ground arith)
      ]

  listed :
      (k : Text)
      → contains k (keys source ++ keys user) ≡ false
      → class_of (lookup k source) (lookup k user) ≡ is_absent
  unfolding class_of
  listed k h =
      ground (
        arith,
        contains-append k (keys source) (keys user),
        lookup-keys k source,
        lookup-keys k user,
      )

  -- A path is in a list of the report exactly when its class is that of the list: added if only
  -- the source has it, removed if only the user has it, unchanged or modified if both have it, by
  -- whether the bytes are equal.
  pub classify_kit_files-class :
      (k : Text) (c : Class)
      → is_present c ≡ true
      → contains k (paths_of (classify_kit_files source user) c)
        ≡ same_class c (class_of (lookup k source) (lookup k user))
  unfolding classify_kit_files
  classify_kit_files-class k c h =
      let all = keys source ++ keys user in
      contains-classify_paths k (sorted_set all) empty_report c h
      ∙ elim (Bool-cases (contains k all)) [
        | inl e ↦ rw (nothing_yet, contains-sorted_set, e)
        | inr e ↦ rw (nothing_yet, contains-sorted_set, e, listed k e, not_absent c h)
      ]

  -- Both sides hold the same bytes, or nothing, under the path.
  same_iff :
      (k : Text)
      → (lookup k source ≡ lookup k user) ↔ (
          (same_class is_added (class_of (lookup k source) (lookup k user)) ≡ false)
          × (same_class is_removed (class_of (lookup k source) (lookup k user)) ≡ false)
          × (same_class is_modified (class_of (lookup k source) (lookup k user)) ≡ false))
  unfolding class_of
  same_iff k = ground arith

  no_changes_iff :
      (r : DiffReport)
      → (has_changes r ≡ false) ↔ (
          (k : Text)
          → (contains k r.added ≡ false)
            × (contains k r.removed ≡ false)
            × (contains k r.modified ≡ false))
  no_changes_iff r =
      let a = eq-nil_iff r.added in
      let d = eq-nil_iff r.removed in
      let m = eq-nil_iff r.modified in
      (
        λ h k. (a.0 (ground arith) k, d.0 (ground arith) k, m.0 (ground arith) k),
        λ h. ground (arith, a.1 (λ k. (h k).0), d.1 (λ k. (h k).1), m.1 (λ k. (h k).2)),
      )

  -- The report has no changes exactly when every path holds the same in both.
  pub classify_kit_files-same :
      (has_changes (classify_kit_files source user) ≡ false)
      ↔ ((k : Text) → lookup k source ≡ lookup k user)
  classify_kit_files-same =
      let iff = no_changes_iff (classify_kit_files source user) in
      (
        λ h k. (same_iff k).1 (
          sym (classify_kit_files-class k is_added refl) ∙ (iff.0 h k).0,
          sym (classify_kit_files-class k is_removed refl) ∙ (iff.0 h k).1,
          sym (classify_kit_files-class k is_modified refl) ∙ (iff.0 h k).2,
        ),
        λ h. iff.1 λ k.
            let (a, d, m) = (same_iff k).0 (h k) in
            (
              classify_kit_files-class k is_added refl ∙ a,
              classify_kit_files-class k is_removed refl ∙ d,
              classify_kit_files-class k is_modified refl ∙ m,
            ),
      )
