-- ===== src/Diff/Update/Current.antt =====
-- When the update of diff_engine.py finds nothing to do.
use katapult.Base.{◌≡◌, ◌↔◌, List, Option, none, some, arith, inl, inr, Bool-cases}
use katapult.Base.Text.{Text}
use katapult.Base.Dict.{Dict, lookup}
use katapult.Base.Unicode.{Unicode}
use katapult.Diff.Codec.{Bytes, Codec}
use katapult.Diff.Classify.{has_changes, classify_kit_files}
use katapult.Diff.Classify.Exact.{classify_kit_files-same}
use katapult.Diff.Merge.{EditorRun, Opcodes}
use katapult.Diff.Review.{Session}
use katapult.Diff.Update.{
  Options, Summary, current, nothing_changed, summed_up, summary, update_files,
}

module _ (u : Unicode) (c : Codec) (opcodes : Opcodes) (o : Options)
    (source_files user_files : Dict Bytes) (target_mapping : Dict Text) where
  summed_up-current :
      (n : _) (s : Option Session) (x : Summary) (after : Dict Bytes)
      → summed_up n s ≡ some (x, after)
      → ¬ (x.status ≡ current)
  unfolding summed_up summary
  summed_up-current n none x after e = cc
  summed_up-current n (some s) x after e = λ h. ground arith

  -- An update that ends reports `current` exactly when both sides hold the same under every path.
  pub update_files-current :
      (files : Dict Bytes) (input : List Text) (runs : List EditorRun) (x : Summary)
      (after : Dict Bytes)
      → update_files u c opcodes o source_files user_files target_mapping files input runs
        ≡ some (x, after)
      → (x.status ≡ current) ↔ ((k : Text) → lookup k source_files ≡ lookup k user_files)
  unfolding update_files
  update_files-current files input runs x after e =
      let same = classify_kit_files-same source_files user_files in
      elim (Bool-cases (has_changes (classify_kit_files source_files user_files))) [
        | inl h ↦ (
          λ p. absurd (summed_up-current _ _ x after (rw h at e) p),
          λ p. absurd (let q = same.1 p in cc),
        )
        | inr h ↦ (
          λ p. same.0 h,
          λ p.
              let q : some (nothing_changed _, files) ≡ some (x, after) = rw h at e in ground arith,
        )
      ]
