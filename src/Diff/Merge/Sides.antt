-- ===== src/Diff/Merge/Sides.antt =====
-- The conflict file of diff_engine.py and its two sides.
use katapult.Base.{
  ℕ, ◌-◌, ◌≤◌, ◌≡◌, refl, ap, ◌∙◌, Bool, true, false, List, [], ◌∷◌, ◌++◌, not, arith,
  if◌then◌else◌,
}
use mathlib.Core.List.{append_assoc}
use katapult.Base.Lists.{length, slice, drop, All, All-take, All-drop, drop_all, slice-append-drop}
use katapult.Base.Text.{Text, text_eq, text_dec}
use katapult.Diff.Merge.{
  marker_ours, marker_sep, marker_theirs, Tag, equal, replace, delete, insert,
}
use katapult.Diff.Merge.{Opcode, hunk_parts, conflict_parts}

-- Where a line of a conflict file stands.
pub data Place : Type 0 where
  both ours theirs : Place

-- The lines of one side; the flag says whether it is the installed one.
unfoldable pub side : Bool → Place → List Text → List Text
side yours place [] = []
side yours place (l ∷ ls) =
    if text_eq l marker_ours
    then side yours ours ls
    else if text_eq l marker_sep
    then side yours theirs ls
    else if text_eq l marker_theirs
    then side yours both ls
    else if elim place [ both ↦ true | ours ↦ yours | theirs ↦ not yours ]
    then l ∷ side yours place ls
    else side yours place ls

-- The line is no marker of a conflict.
abbrev pub IsContent : Text → Type 0
IsContent l = (¬ (l ≡ marker_ours)) × (¬ (l ≡ marker_sep)) × (¬ (l ≡ marker_theirs))

-- What difflib documents of the two slices of an opcode.
abbrev pub Agree : Tag → List Text → List Text → Type 0
Agree equal old new = old ≡ new
Agree replace old new = Unit
Agree delete old new = new ≡ []
Agree insert old new = old ≡ []

-- The opcodes cover both lists from these lines on, piece by piece, as difflib documents it: each
-- begins where the one before it ends, and its slices agree with its tag.
abbrev pub Covers : List Text → List Text → ℕ → ℕ → List Opcode → Type 0
Covers old new i j [] = (length old ≤ i) × (length new ≤ j)
Covers old new i j (o ∷ os) =
    (o.i1 ≡ i)
    × (o.j1 ≡ j)
    × (i ≤ o.i2)
    × (j ≤ o.j2)
    × Agree o.tag (slice o.i1 o.i2 old) (slice o.j1 o.j2 new)
    × Covers old new o.i2 o.j2 os

abbrev keeps : Bool → Place → Bool
keeps yours both = true
keeps yours ours = yours
keeps yours theirs = not yours

abbrev kept : Bool → Place → List Text → List Text
kept yours place ls = if keeps yours place then ls else []

module _ (yours : Bool) where
  side-cons :
      (place : Place) (l : Text) (ls : List Text)
      → IsContent l
      → side yours place (l ∷ ls) ≡ kept yours place (l ∷ []) ++ side yours place ls
  unfolding side
  side-cons both l ls h = ground arith
  side-cons ours l ls h = ground arith
  side-cons theirs l ls h = ground arith

  side-content :
      (place : Place) (ls rest : List Text)
      → All IsContent ls
      → side yours place (ls ++ rest) ≡ kept yours place ls ++ side yours place rest
  side-content place [] rest h = ground arith
  side-content place (l ∷ ls) rest h =
      side-cons place l (ls ++ rest) h.0
      ∙ ap (λ (t : List Text). kept yours place (l ∷ []) ++ t) (side-content place ls rest h.1)
      ∙ ground arith

  side-ours :
      (place : Place) (ls : List Text) → side yours place (marker_ours ∷ ls) ≡ side yours ours ls
  unfolding side marker_ours text_dec
  side-ours place ls = refl

  side-sep :
      (place : Place) (ls : List Text) → side yours place (marker_sep ∷ ls) ≡ side yours theirs ls
  unfolding side marker_ours marker_sep text_dec
  side-sep place ls = refl

  side-theirs :
      (place : Place) (ls : List Text) → side yours place (marker_theirs ∷ ls) ≡ side yours both ls
  unfolding side marker_ours marker_sep marker_theirs text_dec
  side-theirs place ls = refl

  chosen : List Text → List Text → List Text
  chosen old new = if yours then old else new

  -- The side of a conflict that has all its markers.
  side-conflict :
      (old new rest : List Text)
      → All IsContent old
      → All IsContent new
      → side yours both (marker_ours ∷ (old ++ (marker_sep ∷ (new ++ (marker_theirs ∷ rest)))))
        ≡ chosen old new ++ side yours both rest
  unfolding chosen
  side-conflict old new rest ho hn =
      side-ours both _
      ∙ side-content ours old (marker_sep ∷ (new ++ (marker_theirs ∷ rest))) ho
      ∙ ap (λ (t : List Text). kept yours ours old ++ t)
          (side-sep ours (new ++ (marker_theirs ∷ rest))
            ∙ side-content theirs new (marker_theirs ∷ rest) hn
            ∙ ap (λ (t : List Text). kept yours theirs new ++ t) (side-theirs theirs rest))
      ∙ ground arith

side-hunk :
    (yours : Bool) (tag : Tag) (old new rest : List Text)
    → Agree tag old new
    → All IsContent old
    → All IsContent new
    → side yours both (hunk_parts tag old new ++ rest)
      ≡ chosen yours old new ++ side yours both rest
unfolding hunk_parts chosen
side-hunk yours equal old new rest e ho hn = side-content yours both old rest ho ∙ ground arith
side-hunk yours replace old new rest e ho hn =
    simp append_assoc (side-conflict yours old new rest ho hn)
side-hunk yours delete old new rest e ho hn =
    rw e (simp append_assoc (side-conflict yours old [] rest ho tt))
side-hunk yours insert old new rest e ho hn =
    rw e (simp append_assoc (side-conflict yours [] new rest tt hn))

module _ (old new : List Text) (ho : All IsContent old) (hn : All IsContent new) where
  All-slice : (a b : ℕ) (xs : List Text) → All IsContent xs → All IsContent (slice a b xs)
  All-slice a b xs h = All-take IsContent (b - a) (drop a xs) (All-drop IsContent a xs h)

  side-conflict_parts :
      (yours : Bool) (os : List Opcode) (i j : ℕ)
      → Covers old new i j os
      → side yours both (conflict_parts old new os) ≡ chosen yours (drop i old) (drop j new)
  unfolding conflict_parts side chosen
  side-conflict_parts yours [] i j c = rw (drop_all i old c.0, drop_all j new c.1) (ground arith)
  side-conflict_parts yours (o ∷ os) i j (ei, ej, hi, hj, a, c) =
      rw (← ei, ← ej)
        (side-hunk yours o.tag (slice o.i1 o.i2 old) (slice o.j1 o.j2 new)
            (conflict_parts old new os) a (All-slice o.i1 o.i2 old ho) (All-slice o.j1 o.j2 new hn)
          ∙ ap (λ (t : List Text). chosen yours (slice o.i1 o.i2 old) (slice o.j1 o.j2 new) ++ t)
              (side-conflict_parts yours os o.i2 o.j2 c)
          ∙ pieces yours)
    where
      pieces :
          (yours : Bool)
          → chosen yours (slice o.i1 o.i2 old) (slice o.j1 o.j2 new)
              ++ chosen yours (drop o.i2 old) (drop o.j2 new)
            ≡ chosen yours (drop o.i1 old) (drop o.j1 new)
      pieces true = slice-append-drop o.i1 o.i2 old (omega arith)
      pieces false = slice-append-drop o.j1 o.j2 new (omega arith)

-- If no line of either version is a conflict marker and the opcodes cover both versions, dropping
-- the upstream side of every conflict gives back the installed lines, and dropping the installed
-- side gives back the upstream lines.
pub conflict_parts-sides :
    (old new : List Text) (os : List Opcode)
    → All IsContent old
    → All IsContent new
    → Covers old new 0 0 os
    → (side true both (conflict_parts old new os) ≡ old)
      × (side false both (conflict_parts old new os) ≡ new)
unfolding chosen
conflict_parts-sides old new os ho hn c = (
  side-conflict_parts old new ho hn true os 0 0 c,
  side-conflict_parts old new ho hn false os 0 0 c,
)
