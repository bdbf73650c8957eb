-- ===== src/Diff/Merge/Joined.antt =====
-- The text of the conflict file of diff_engine.py, read line by line.
use katapult.Base.{
  ℕ, ◌-◌, ◌≡◌, ◌≢◌, refl, ap, sym, ◌∙◌, Bool, true, false, not, ◌&&◌, List, [], ◌∷◌, ◌++◌, arith,
  ◌==◌, if◌then◌else◌,
}
use katapult.Base.Lists.{slice, drop, All, All-append, All-take, All-drop, concat}
use katapult.Base.Text.{
  Text, txt, is_break, starts_lf, prepend, splitlines_keepends, concat-splitlines_keepends,
}
use katapult.Diff.Merge.{
  marker_ours, marker_sep, marker_theirs, Tag, equal, replace, delete, insert, Opcode, Opcodes,
  hunk_parts, conflict_parts, build_conflict_content,
}
use katapult.Diff.Merge.Sides.{side, both, IsContent, Covers, conflict_parts-sides}

-- The last character is a newline.
abbrev pub ends_in_newline : Text → Bool
ends_in_newline [] = false
ends_in_newline (c ∷ []) = c == 10
ends_in_newline (c ∷ d ∷ s) = ends_in_newline (d ∷ s)

-- A text of one line, with its newline.
abbrev IsWhole : Text → Type 0
IsWhole l = (splitlines_keepends l ≡ l ∷ []) × (ends_in_newline l ≡ true)

prepend-inj :
    (c : ℕ) (ls : List Text) (s : Text) → s ≢ [] → prepend c ls ≡ (c ∷ s) ∷ [] → ls ≡ s ∷ []
prepend-inj c [] s h e = absurd (ground (arith, h))
prepend-inj c (l ∷ ls) s h e = ground (arith)

-- The lines of a text with a line in front, by whether its first character ends a line.
abbrev lines_by : Bool → ℕ → List Text → List Text
lines_by b c rest = if b then (c ∷ []) ∷ rest else prepend c rest

abbrev ends_line : ℕ → Text → Bool
ends_line c s = is_break c && not (c == 13 && starts_lf s)

lines_by-whole :
    (b : Bool) (c d : ℕ) (s : Text) (ls ms tail : List Text)
    → lines_by b c ls ≡ (c ∷ d ∷ s) ∷ []
    → (ls ≡ (d ∷ s) ∷ [] → ms ≡ (d ∷ s) ∷ tail)
    → lines_by b c ms ≡ (c ∷ d ∷ s) ∷ tail
lines_by-whole true c d s ls ms tail e h = absurd (ground arith)
lines_by-whole false c d s ls ms tail e h =
    ap (prepend c) (h (prepend-inj c ls (d ∷ s) (λ k. absurd (cc)) e))

splitlines-cons :
    (c : ℕ) (s : Text)
    → splitlines_keepends (c ∷ s) ≡ lines_by (ends_line c s) c (splitlines_keepends s)
unfolding splitlines_keepends
splitlines-cons c s = refl

splitlines-newline :
    (rest : Text) → splitlines_keepends (10 ∷ rest) ≡ (10 ∷ []) ∷ splitlines_keepends rest
unfolding splitlines_keepends is_break
splitlines-newline rest = refl

-- A whole line is the first one of a text that begins with it.
splitlines-whole :
    (l rest : Text)
    → splitlines_keepends l ≡ l ∷ []
    → ends_in_newline l ≡ true
    → splitlines_keepends (l ++ rest) ≡ l ∷ splitlines_keepends rest
splitlines-whole [] rest e h = absurd (cc)
splitlines-whole (c ∷ []) rest e h =
    let newline : c ≡ 10 = ground arith in rw newline (splitlines-newline rest)
splitlines-whole (c ∷ d ∷ s) rest e h =
    splitlines-cons c ((d ∷ s) ++ rest)
    ∙ lines_by-whole (ends_line c (d ∷ s)) c d s (splitlines_keepends (d ∷ s)) _
        (splitlines_keepends rest) (sym (splitlines-cons c (d ∷ s)) ∙ e)
        (λ k. splitlines-whole (d ∷ s) rest k h)

-- Whole lines put together are read as they were.
splitlines-concat : (ls : List Text) → All IsWhole ls → splitlines_keepends (concat ls) ≡ ls
splitlines-concat [] h = unfold splitlines_keepends in refl
splitlines-concat (l ∷ ls) h =
    splitlines-whole l (concat ls) h.0.0 h.0.1 ∙ ap (◌∷◌ l) (splitlines-concat ls h.1)

abbrev IsSingle : Text → Type 0
IsSingle l = splitlines_keepends l ≡ l ∷ []

-- The first line begins as the text does.
StartsAlike : Text → List Text → Type 0
StartsAlike s [] = s ≡ []
StartsAlike s (l ∷ ls) = starts_lf l ≡ starts_lf s

splitlines-alike : (s : Text) → StartsAlike s (splitlines_keepends s)
unfolding StartsAlike
splitlines-alike [] = unfold splitlines_keepends in refl
splitlines-alike (c ∷ s) = rw (splitlines-cons c s) (by (ends_line c s) (splitlines_keepends s))
  where
    by : (b : Bool) (rest : List Text) → StartsAlike (c ∷ s) (lines_by b c rest)
    by true rest = refl
    by false [] = refl
    by false (l ∷ ls) = refl

IsSingle-character : (c : ℕ) → IsSingle (c ∷ [])
IsSingle-character c = splitlines-cons c [] ∙ unfold splitlines_keepends in either (ends_line c [])
  where
    either : (b : Bool) → lines_by b c [] ≡ (c ∷ []) ∷ []
    either true = refl
    either false = refl

IsSingle-cons :
    (c : ℕ) (s l : Text)
    → starts_lf l ≡ starts_lf s
    → ends_line c s ≡ false
    → IsSingle l
    → IsSingle (c ∷ l)
IsSingle-cons c s l a e h =
    let same : ends_line c l ≡ false = ap (λ b. is_break c && not (c == 13 && b)) a ∙ e in
    splitlines-cons c l ∙ rw (same, h) refl

IsSingle-nil : (b : Bool) (c : ℕ) → All IsSingle (lines_by b c [])
IsSingle-nil true c = (IsSingle-character c, tt)
IsSingle-nil false c = (IsSingle-character c, tt)

-- Each line of a text is one line alone.
IsSingle-lines :
    (c : ℕ) (s : Text) (ls : List Text)
    → StartsAlike s ls
    → All IsSingle ls
    → All IsSingle (lines_by (ends_line c s) c ls)
unfolding StartsAlike
IsSingle-lines c s [] e h = IsSingle-nil (ends_line c s) c
IsSingle-lines c s (l ∷ ls) e h = by (ends_line c s) refl
  where
    by : (b : Bool) → ends_line c s ≡ b → All IsSingle (lines_by b c (l ∷ ls))
    by true k = (IsSingle-character c, h)
    by false k = (IsSingle-cons c s l e k h.0, h.1)

splitlines-IsSingle : (s : Text) → All IsSingle (splitlines_keepends s)
splitlines-IsSingle [] = unfold splitlines_keepends in tt
splitlines-IsSingle (c ∷ s) =
    rw (splitlines-cons c s)
      (IsSingle-lines c s (splitlines_keepends s) (splitlines-alike s) (splitlines-IsSingle s))

-- Every line of the text ends in a newline.
abbrev pub IsNewlined : Text → Type 0
IsNewlined t = All (λ l. ends_in_newline l ≡ true) (splitlines_keepends t)

IsWhole-lines :
    (ls : List Text) → All IsSingle ls → All (λ l. ends_in_newline l ≡ true) ls → All IsWhole ls
IsWhole-lines [] h k = tt
IsWhole-lines (l ∷ ls) h k = ((h.0, k.0), IsWhole-lines ls h.1 k.1)

marker_ours-IsWhole : IsWhole marker_ours
unfolding marker_ours splitlines_keepends txt
marker_ours-IsWhole = (refl, refl)

marker_sep-IsWhole : IsWhole marker_sep
unfolding marker_sep splitlines_keepends txt
marker_sep-IsWhole = (refl, refl)

marker_theirs-IsWhole : IsWhole marker_theirs
unfolding marker_theirs splitlines_keepends txt
marker_theirs-IsWhole = (refl, refl)

hunk_parts-IsWhole :
    (tag : Tag) (old new : List Text)
    → All IsWhole old
    → All IsWhole new
    → All IsWhole (hunk_parts tag old new)
unfolding hunk_parts
hunk_parts-IsWhole equal old new h k = h
hunk_parts-IsWhole replace old new h k = (
  marker_ours-IsWhole,
  All-append IsWhole old _ h
      (marker_sep-IsWhole, All-append IsWhole new _ k (marker_theirs-IsWhole, tt)),
)
hunk_parts-IsWhole delete old new h k = (
  marker_ours-IsWhole,
  All-append IsWhole old _ h (marker_sep-IsWhole, (marker_theirs-IsWhole, tt)),
)
hunk_parts-IsWhole insert old new h k = (
  marker_ours-IsWhole,
  (marker_sep-IsWhole, All-append IsWhole new _ k (marker_theirs-IsWhole, tt)),
)

conflict_parts-IsWhole :
    (old new : List Text) (os : List Opcode)
    → All IsWhole old
    → All IsWhole new
    → All IsWhole (conflict_parts old new os)
unfolding conflict_parts
conflict_parts-IsWhole old new [] h k = tt
conflict_parts-IsWhole old new (o ∷ os) h k =
    All-append IsWhole (hunk_parts o.tag (slice o.i1 o.i2 old) (slice o.j1 o.j2 new)) _
      (hunk_parts-IsWhole o.tag _ _
        (All-take IsWhole (o.i2 - o.i1) (drop o.i1 old) (All-drop IsWhole o.i1 old h))
        (All-take IsWhole (o.j2 - o.j1) (drop o.j1 new) (All-drop IsWhole o.j1 new k)))
      (conflict_parts-IsWhole old new os h k)

joined :
    (opcodes : Opcodes) (old new : Text)
    → All IsWhole (splitlines_keepends old)
    → All IsWhole (splitlines_keepends new)
    → splitlines_keepends (build_conflict_content opcodes old new)
      ≡ conflict_parts
          (splitlines_keepends old)
          (splitlines_keepends new)
          (opcodes (splitlines_keepends old) (splitlines_keepends new))
joined opcodes old new h k =
    let same : build_conflict_content opcodes old new
        ≡ concat (
            conflict_parts (splitlines_keepends old) (splitlines_keepends new)
              (opcodes (splitlines_keepends old) (splitlines_keepends new))) =
      unfold build_conflict_content in refl in
    ap splitlines_keepends same
    ∙ splitlines-concat _ (
        conflict_parts-IsWhole _ _ (opcodes (splitlines_keepends old) (splitlines_keepends new)) h
          k)

-- If every line of both versions ends in a newline and is no conflict marker, and the opcodes cover
-- both versions, then the lines of the conflict file give back the installed text when the upstream
-- side of every conflict is dropped, and the upstream text when the installed side is.
pub build_conflict_content-sides :
    (opcodes : Opcodes) (old new : Text)
    → IsNewlined old
    → IsNewlined new
    → All IsContent (splitlines_keepends old)
    → All IsContent (splitlines_keepends new)
    → Covers
        (splitlines_keepends old)
        (splitlines_keepends new)
        0
        0
        (opcodes (splitlines_keepends old) (splitlines_keepends new))
    → let lines = splitlines_keepends (build_conflict_content opcodes old new) in
      (concat (side true both lines) ≡ old) × (concat (side false both lines) ≡ new)
build_conflict_content-sides opcodes old new ho hn co cn c =
    let olds = splitlines_keepends old in
    let news = splitlines_keepends new in
    let parts = conflict_parts olds news (opcodes olds news) in
    let read : splitlines_keepends (build_conflict_content opcodes old new) ≡ parts =
      joined opcodes old new (IsWhole-lines olds (splitlines-IsSingle old) ho)
        (IsWhole-lines news (splitlines-IsSingle new) hn) in
    let sides = conflict_parts-sides olds news (opcodes olds news) co cn c in
    (
      ap (λ ls. concat (side true both ls)) read
          ∙ ap concat sides.0
          ∙ concat-splitlines_keepends old,
      ap (λ ls. concat (side false both ls)) read
          ∙ ap concat sides.1
          ∙ concat-splitlines_keepends new,
    )
