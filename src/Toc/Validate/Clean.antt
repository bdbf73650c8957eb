-- ===== src/Toc/Validate/Clean.antt =====
-- What it means that `validate_toc` reports no error about a table that is there.
use katapult.Base.{ℕ, ◌≡◌, refl, ◌∙◌, sym, ◌↔◌, true, ◌||◌, List, [], ◌∷◌, some, arith}
use katapult.Base.Text.{Text, contains, split_on}
use katapult.Base.Members.{
  append_nil_iff, contains_self, contains_later, same_members, contains-keys-insert,
}
use katapult.Base.Dict.{Dict, keys, insert}
use katapult.Base.Unicode.{Unicode}
use katapult.Issue.{FilePath}
use katapult.Toc.Headings.{Heading}
use katapult.Toc.Validate.{
  Entry, TocSection, extract_toc_entries, toc_anchors, broken_anchors, unlisted,
}
use katapult.Toc.Validate.{build_expected_anchors, check_section}

abbrev pub anchors_of : List Entry → List Text
anchors_of [] = []
anchors_of (e ∷ es) = e.anchor ∷ anchors_of es

broken_nil_iff :
    (path : FilePath) (expected : List Text) (es : List Entry)
    → (broken_anchors path expected es ≡ [])
      ↔ ((k : Text) → contains k (anchors_of es) ≡ true → contains k expected ≡ true)
unfolding broken_anchors
broken_nil_iff path expected [] = (λ e k h. absurd (cc), λ h. refl)
broken_nil_iff path expected (e ∷ es) = (
  λ p k h. ground (arith, (broken_nil_iff path expected es).0 (ground arith) k),
  λ h. ground (
    arith,
    h e.anchor (contains_self e.anchor (anchors_of es)),
    (broken_nil_iff path expected es).1 (λ k p. h k (contains_later k e.anchor (anchors_of es) p)),
  ),
)

unlisted_nil_iff :
    (path : FilePath) (lines listed : List Text) (expected : Dict Text)
    → (unlisted path lines listed expected ≡ [])
      ↔ ((k : Text) → contains k (keys expected) ≡ true → contains k listed ≡ true)
unfolding unlisted keys
unlisted_nil_iff path lines listed [] = (λ e k h. absurd (cc), λ h. refl)
unlisted_nil_iff path lines listed ((a, t) ∷ expected) = (
  λ p k h. ground (arith, (unlisted_nil_iff path lines listed expected).0 (ground arith) k),
  λ h. ground (
    arith,
    h a (contains_self a (keys expected)),
    (unlisted_nil_iff path lines listed expected).1
        (λ k p. h k (contains_later k a (keys expected) p)),
  ),
)

contains-toc_anchors :
    (k : Text) (d : Dict ℕ) (es : List Entry)
    → contains k (keys (toc_anchors d es)) ≡ (contains k (keys d) || contains k (anchors_of es))
unfolding toc_anchors
contains-toc_anchors k d [] = ground arith
contains-toc_anchors k d (e ∷ es) = ground (
  arith,
  contains-toc_anchors k (insert e.anchor e.line d) es,
  contains-keys-insert k e.anchor e.line d,
)

module _ (u : Unicode) (path : FilePath) (max_level : ℕ) (content : Text) where
  -- The anchors in the section, and those that the headings ask for.
  abbrev pub listed_anchors : TocSection → List Text
  listed_anchors t = anchors_of (extract_toc_entries (split_on 10 content) t.start t.end)

  -- For a document with a table of contents, no error is reported exactly when the anchors that the
  -- table links to are the slugs of the headings.
  pub check_section-clean :
      (hs : List Heading) (t : TocSection)
      → ((check_section u path max_level content hs (some t)).errors ≡ []) ↔ (
          (k : Text)
          → contains k (listed_anchors t) ≡ contains k (keys (build_expected_anchors u hs)))
  unfolding check_section keys
  check_section-clean hs t =
      let lines = split_on 10 content in
      let entries = extract_toc_entries lines t.start t.end in
      let expected = build_expected_anchors u hs in
      let broken = broken_nil_iff path (keys expected) entries in
      let missing = unlisted_nil_iff path lines (keys (toc_anchors [] entries)) expected in
      let split =
        append_nil_iff (broken_anchors path (keys expected) entries)
          (unlisted path lines (keys (toc_anchors [] entries)) expected) in
      (
        λ e k.
            same_members k (anchors_of entries) (keys expected) (broken.0 (split.0 e).0 k)
              (λ h. sym (contains-toc_anchors k [] entries) ∙ missing.0 (split.0 e).1 k h),
        λ h. split.1 (
          broken.1 (λ k p. sym (h k) ∙ p),
          missing.1 (λ k p. contains-toc_anchors k [] entries ∙ h k ∙ p),
        ),
      )
