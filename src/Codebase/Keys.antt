-- ===== src/Codebase/Keys.antt =====
-- The keys under which the scanner of codebase.py keeps the open blocks.
use katapult.Base.{ℕ, ◌≡◌, refl, ◌∙◌, sym, Bool, true, false, not, List, [], ◌∷◌, ◌++◌, arith, ◌==◌}
use mathlib.Core.List.{append_assoc, append-nil}
use katapult.Base.Lists.{All, all}
use katapult.Base.Text.{Text, txt, fstring}
use katapult.Base.Unicode.{Unicode}
use katapult.Regex.{Match, finditer, captured}
use katapult.Regex.Classes.{finditer-captured}
use katapult.Codebase.Data.{id_group, inst_group, block_begin_re, block_end_re}
use katapult.Codebase.Data.{is_slug, is_slug_start}
use katapult.Codebase.Scan.{block_key}

abbrev is_plain : ℕ → Bool
is_plain c = not (c == b':')

abbrev pub IsPlain : Text → Type 0
IsPlain t = all is_plain t ≡ true

-- Up to the first colon, and behind the last.
before_colon : (a b s t : Text) → IsPlain a → IsPlain b → a ++ b':' ∷ s ≡ b ++ b':' ∷ t → a ≡ b
unfolding all
before_colon [] [] s t h k e = refl
before_colon [] (c ∷ b) s t h k e = absurd (ground arith)
before_colon (c ∷ a) [] s t h k e = absurd (ground arith)
before_colon (c ∷ a) (d ∷ b) s t h k e =
    let e' : a ++ b':' ∷ s ≡ b ++ b':' ∷ t = ground arith in
    let same = before_colon a b s t (ground arith) (ground arith) e' in ground arith

has_colon : (a s : Text) → all is_plain (a ++ b':' ∷ s) ≡ false
unfolding all
has_colon [] s = refl
has_colon (c ∷ a) s = ground (arith, has_colon a s)

behind_colon : (a b s t : Text) → IsPlain s → IsPlain t → a ++ b':' ∷ s ≡ b ++ b':' ∷ t → s ≡ t
behind_colon [] [] s t h k e = ground arith
behind_colon [] (d ∷ b) s t h k e =
    let e' : s ≡ b ++ b':' ∷ t = ground arith in absurd (ground (arith, has_colon b t))
behind_colon (c ∷ a) [] s t h k e =
    let e' : a ++ b':' ∷ s ≡ t = ground arith in absurd (ground (arith, has_colon a s))
behind_colon (c ∷ a) (d ∷ b) s t h k e =
    let e' : a ++ b':' ∷ s ≡ b ++ b':' ∷ t = ground arith in behind_colon a b s t h k e'

-- The id and the instance that a marker names hold no colon.
abbrev pub IsNamed : Match → Type 0
IsNamed m = IsPlain (captured id_group m.groups) × IsPlain (captured inst_group m.groups)

abbrev key_text : Text → Text → Text → Text
unfolding txt
key_text id phase inst = fstring (id ∷ txt ":" ∷ phase ∷ txt ":" ∷ inst ∷ [])

same_names :
    (a b c x y z : Text)
    → IsPlain a
    → IsPlain c
    → IsPlain x
    → IsPlain z
    → key_text a b c ≡ key_text x y z
    → (a ≡ x) × (c ≡ z)
unfolding txt
same_names a b c x y z ha hc hx hz e =
    let lasts : c ++ [] ≡ z ++ [] =
      behind_colon (a ++ b':' ∷ b) (x ++ b':' ∷ y) (c ++ []) (z ++ []) (rw (append-nil c) hc)
        (rw (append-nil z) hz)
        (append_assoc a (b':' ∷ b) (b':' ∷ (c ++ []))
          ∙ e
          ∙ sym (append_assoc x (b':' ∷ y) (b':' ∷ (z ++ [])))) in
    (before_colon a x _ _ ha hx e, sym (append-nil c) ∙ lasts ∙ append-nil z)

-- Two markers with one key name the same id and the same instance.
pub block_key-names :
    (m k : Match)
    → IsNamed m
    → IsNamed k
    → block_key m ≡ block_key k
    → (captured id_group m.groups ≡ captured id_group k.groups)
      × (captured inst_group m.groups ≡ captured inst_group k.groups)
unfolding block_key
block_key-names m k h h' e = same_names _ _ _ _ _ _ h.0 h.1 h'.0 h'.1 e

both {ℓ κ} :
    {A : Type ℓ} (P Q : A → Type κ) (xs : List A) → All P xs → All Q xs → All (λ x. P x × Q x) xs
both P Q [] h k = tt
both P Q (x ∷ xs) h k = ((h.0, k.0), both P Q xs h.1 k.1)

slug_plain : (c : ℕ) → is_slug c ≡ true → is_plain c ≡ true
slug_plain c h = ground arith

slug_start_plain : (c : ℕ) → is_slug_start c ≡ true → is_plain c ≡ true
slug_start_plain c h = ground arith

never : {A : Type 0} → false ≡ true → A
never e = absurd (cc)

module _ (u : Unicode) (line : Text) where
  pub begins-IsNamed : All IsNamed (finditer (block_begin_re u) line)
  unfolding block_begin_re txt all
  begins-IsNamed =
      both _ _ (finditer (block_begin_re u) line)
        (finditer-captured is_plain id_group (block_begin_re u) line (
          tt,
          (
            ((λ e. (refl, (slug_start_plain, slug_plain))), (tt, (tt, tt))),
            ((tt, ((tt, tt), (never, tt))), (tt, (never, tt))),
          ),
        ))
        (finditer-captured is_plain inst_group (block_begin_re u) line (
          tt,
          ((never, (tt, (tt, tt))), ((tt, ((tt, tt), (never, tt))), (tt, ((λ e. slug_plain), tt)))),
        ))

  pub ends-IsNamed : All IsNamed (finditer (block_end_re u) line)
  unfolding block_end_re txt all
  ends-IsNamed =
      both _ _ (finditer (block_end_re u) line)
        (finditer-captured is_plain id_group (block_end_re u) line (
          tt,
          (
            ((λ e. (refl, (slug_start_plain, slug_plain))), (tt, (tt, tt))),
            ((tt, ((tt, tt), (never, tt))), (tt, (never, tt))),
          ),
        ))
        (finditer-captured is_plain inst_group (block_end_re u) line (
          tt,
          ((never, (tt, (tt, tt))), ((tt, ((tt, tt), (never, tt))), (tt, ((λ e. slug_plain), tt)))),
        ))
