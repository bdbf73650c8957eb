-- ===== src/Document/Ids.antt =====
-- `scan_cpt_ids` of document.py: the ids that an artifact defines and references.
pub mod Lines
use katapult.Base.{
  ℕ, ◌+◌, Bool, true, false, not, List, [], ◌∷◌, ◌++◌, map, Option, none, some, ◌==◌, if◌then◌else◌,
}
use katapult.Base.Lists.{is_nil, drop}
use katapult.Base.Text.{Text, txt, strip, starts_with}
use katapult.Base.Unicode.{Unicode, is_some}
use katapult.Regex.{Match, match_start, finditer, captured, char_in}
use katapult.Document.Patterns.{
  code_fence_re, id_def_re, id_ref_re, backtick_id_re, task_group, priority_group,
  priority_only_group, priority_only2_group, id_group, id2_group, id3_group, id4_group,
}

pub data HitType : Type 0 where
  definition reference : HitType

-- A hit; what the dict of an inline reference leaves out is false here, as its readers take it.
pub record IdHit : Type 0 where
  pub id : Text
  pub line : ℕ
  pub hit_type : HitType
  pub checked : Bool
  pub has_task : Bool
  pub has_priority : Bool
  pub priority : Text

-- `a or b` of texts; a group that took no part is the empty text.
abbrev pub or_text : Text → Text → Text
or_text [] b = b
or_text (c ∷ a) b = c ∷ a

-- `m.group(n) is not None`
abbrev pub has_group : ℕ → List (ℕ × Text) → Bool
has_group n [] = false
has_group n ((i, t) ∷ gs) = if i == n then true else has_group n gs

-- `_CODE_FENCE_RE.match(line)`
unfoldable pub is_fence : Text → Bool
unfolding code_fence_re match_start
is_fence line = is_some (match_start code_fence_re line)

-- A leading bullet of a reference line is passed over.
unfoldable pub unbullet : Text → Text
unfolding starts_with strip txt
unbullet s =
    if starts_with s (txt "- ")
    then strip (drop 2 s)
    else if starts_with s (txt "* ")
    then strip (drop 2 s)
    else s

module _ (u : Unicode) where
  -- `(m.group("task") or "").lower().find("x") != -1`
  unfoldable pub is_checked : List (ℕ × Text) → Bool
  is_checked gs = char_in (u.lower (captured task_group gs)) b'x'

  unfoldable pub defined : ℕ → Match → IdHit
  unfolding is_checked strip
  defined n m =
      let p = or_text (captured priority_group m.groups) (
        or_text (captured priority_only_group m.groups) (captured priority_only2_group m.groups)) in
      record {
        id = or_text (captured id_group m.groups) (
            or_text (captured id2_group m.groups)
              (or_text (captured id3_group m.groups) (captured id4_group m.groups)));
        line = n;
        hit_type = definition;
        checked = is_checked m.groups;
        has_task = has_group task_group m.groups;
        has_priority = not (is_nil (strip p));
        priority = p;
      }

  unfoldable pub referenced : ℕ → Match → IdHit
  unfolding is_checked strip
  referenced n m =
      let p = or_text (captured priority_group m.groups) (captured priority_only_group m.groups) in
      record {
        id = captured id_group m.groups;
        line = n;
        hit_type = reference;
        checked = is_checked m.groups;
        has_task = has_group task_group m.groups;
        has_priority = not (is_nil (strip p));
        priority = p;
      }

  unfoldable pub inline : ℕ → Match → IdHit
  inline n m = record {
    id = captured 1 m.groups;
    line = n;
    hit_type = reference;
    checked = false;
    has_task = false;
    has_priority = false;
    priority = [];
  }

  unfoldable pub reference_hits : ℕ → Text → Option Match → List IdHit
  unfolding referenced inline backtick_id_re finditer
  reference_hits n raw (some m) = referenced n m ∷ []
  reference_hits n raw none = map (inline n) (finditer backtick_id_re raw)

  unfoldable pub definition_hits : ℕ → Text → Text → Option Match → List IdHit
  unfolding defined reference_hits id_ref_re unbullet match_start
  definition_hits n raw s (some m) = defined n m ∷ []
  definition_hits n raw s none = reference_hits n raw (match_start (id_ref_re u) (unbullet s))

  -- The hits of a line outside the fences.
  unfoldable pub line_hits : ℕ → Text → List IdHit
  unfolding definition_hits id_def_re match_start strip
  line_hits n raw =
      let s = strip raw in
      if is_nil s then [] else definition_hits n raw s (match_start (id_def_re u) s)

  -- The loop, with the number of the line and whether it stands in a fence.
  unfoldable pub ids_from : ℕ → Bool → List Text → List IdHit
  unfolding line_hits is_fence
  ids_from n in_fence [] = []
  ids_from n in_fence (raw ∷ lines) =
      let rest = ids_from (n + 1) (if is_fence raw then not in_fence else in_fence) lines in
      (if is_fence raw then [] else if in_fence then [] else line_hits n raw) ++ rest

  unfoldable pub scan_cpt_ids : Option (List Text) → List IdHit
  unfolding ids_from
  scan_cpt_ids none = []
  scan_cpt_ids (some lines) = ids_from 1 false lines
