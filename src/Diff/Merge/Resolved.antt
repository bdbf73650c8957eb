-- ===== src/Diff/Merge/Resolved.antt =====
-- What the editor loop returns.
use katapult.Base.{
  ◌≡◌, refl, subst, if◌then◌else◌, Bool, true, false, List, [], ◌∷◌, Option, none, some, ◌⊎◌, inl,
  inr,
}
use katapult.Base.Lists.{is_nil}
use katapult.Base.Text.{Text, strip}
use katapult.Base.Unicode.{Unicode}
use katapult.Diff.Codec.{Bytes, Codec}
use katapult.Diff.Prompt.{Unresolved, retry, take_upstream, keep_yours, prompt_unresolved}
use katapult.Diff.Merge.{
  has_conflict_markers, EditorRun, failed, saved, Merged, returned, waiting, edit_loop,
}
use katapult.Diff.Merge.{Opcodes, open_decoded, open_editor_for_file}

module _ (u : Unicode) (c : Codec) (new_content : Bytes) where
  -- Bytes that may be written: the upstream file, or a text with content and without markers.
  abbrev pub IsResolved : Bytes → Type 0
  IsResolved b =
      (b ≡ new_content)
      ⊎ ((t : Text) × (b ≡ c.encode t)
          × (is_nil (strip t) ≡ false)
          × (has_conflict_markers t ≡ false))

  abbrev Resolves : Merged → Type 0
  Resolves (returned (some b) runs input) = IsResolved b
  Resolves (returned none runs input) = Unit
  Resolves (waiting t) = Unit

  Resolves-if :
      (b : Bool) (x y : Merged)
      → (b ≡ true → Resolves x)
      → (b ≡ false → Resolves y)
      → Resolves (if b then x else y)
  Resolves-if true x y f g = f refl
  Resolves-if false x y f g = g refl

  Resolves-decision :
      (d : Unresolved) (again : Merged) (runs : List EditorRun) (rest : List Text)
      → Resolves again
      → Resolves (elim d [
        | retry ↦ again
        | take_upstream ↦ returned (some new_content) runs rest
        | keep_yours ↦ returned none runs rest
      ])
  Resolves-decision retry again runs rest h = h
  Resolves-decision take_upstream again runs rest h = inl refl
  Resolves-decision keep_yours again runs rest h = tt

  edit_loop-Resolves :
      (conflict : Text) (runs : List EditorRun) (input : List Text)
      → Resolves (edit_loop u c new_content conflict runs input)
  unfolding edit_loop
  edit_loop-Resolves conflict [] input = tt
  edit_loop-Resolves conflict (failed ∷ runs) input = tt
  edit_loop-Resolves conflict (saved edited ∷ runs) input =
      let again = edit_loop u c new_content edited runs (prompt_unresolved u input).1 in
      Resolves-if (is_nil (strip edited)) _ _ (λ e. tt)
        λ full.
          Resolves-if (has_conflict_markers edited) _ _
            (λ e.
              Resolves-decision (prompt_unresolved u input).0 again runs
                (prompt_unresolved u input).1
                (edit_loop-Resolves edited runs (prompt_unresolved u input).1))
            (λ clean. inr (edited, refl, full, clean))

  Resolves-open :
      (opcodes : Opcodes) (old new : Option Text) (runs : List EditorRun) (input : List Text)
      → Resolves (open_decoded u c new_content opcodes old new runs input)
  unfolding open_decoded
  Resolves-open opcodes (some old) (some new) runs input = edit_loop-Resolves _ runs input
  Resolves-open opcodes none new runs input = tt
  Resolves-open opcodes (some old) none runs input = tt

  -- Whatever the editor returns for a file is the upstream content, or the encoding of a text
  -- that is not blank and holds no line of conflict markers.
  pub open_editor_for_file-IsResolved :
      (opcodes : Opcodes) (old_content : Bytes) (runs : List EditorRun) (input : List Text)
      (b : Bytes) (left : List EditorRun) (unread : List Text)
      → open_editor_for_file u c new_content opcodes old_content runs input
        ≡ returned (some b) left unread
      → IsResolved b
  unfolding open_editor_for_file
  open_editor_for_file-IsResolved opcodes old_content runs input b left unread e =
      subst Resolves e
        (Resolves-open opcodes (c.decode old_content) (c.decode new_content) runs input)
