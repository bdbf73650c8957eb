-- ===== src/Document/Steps.antt =====
-- `scan_cdsl_instructions` of document.py: the instructions of an artifact, each with the id under
-- which it stands.
pub mod Parents
use katapult.Base.{
  ℕ, ◌+◌, Bool, true, false, not, List, [], ◌∷◌, ◌++◌, Option, none, some, if◌then◌else◌,
}
use katapult.Base.Lists.{is_nil}
use katapult.Base.Text.{Text, txt, strip, text_eq, text_dec}
use katapult.Base.Unicode.{Unicode, int}
use katapult.Regex.{Match, match_start, captured}
use katapult.Document.Patterns.{
  id_def_re, cdsl_line_re, cdsl_phase_num_re, id_group, id2_group, id3_group, check_group,
  phase_group, inst_group,
}
use katapult.Document.Ids.{is_fence, or_text}

pub record Step : Type 0 where
  pub checked : Bool
  pub phase : ℕ
  pub inst : Text
  pub parent_id : Option Text
  pub line : ℕ

-- `m.group("id") or m.group("id2") or m.group("id3")`: the fourth group is not asked.
unfoldable pub parent_of : Match → Text
parent_of m =
    or_text (captured id_group m.groups)
      (or_text (captured id2_group m.groups) (captured id3_group m.groups))

abbrev pub or_parent : Text → Option Text → Option Text
or_parent [] parent = parent
or_parent (c ∷ id) parent = some (c ∷ id)

module _ (u : Unicode) where
  unfoldable pub step_of : ℕ → Option Text → Match → Match → Step
  unfolding strip txt text_dec int
  step_of n parent m mph = record {
    checked = text_eq (u.lower (strip (captured check_group m.groups))) (txt "x");
    phase = int u (captured 1 mph.groups);
    inst = captured inst_group m.groups;
    parent_id = parent;
    line = n;
  }

  abbrev pub with_phase : ℕ → Option Text → Match → Option Match → List Step
  unfolding step_of
  with_phase n parent m none = []
  with_phase n parent m (some mph) = step_of n parent m mph ∷ []

  -- A line that defines no id.
  unfoldable pub step_on : ℕ → Option Text → Option Match → List Step
  unfolding with_phase cdsl_phase_num_re match_start strip
  step_on n parent none = []
  step_on n parent (some m) =
      with_phase n parent m
        (match_start (cdsl_phase_num_re u) (strip (captured phase_group m.groups)))

  unfoldable pub definition_or_step :
      ℕ → Text → Option Text → Option Match → List Step × Option Text
  unfolding parent_of step_on cdsl_line_re match_start
  definition_or_step n raw parent (some m) = ([], or_parent (parent_of m) parent)
  definition_or_step n raw parent none =
      (step_on n parent (match_start (cdsl_line_re u) raw), parent)

  -- What a line outside the fences adds, and the last defined id behind it.
  unfoldable pub step_line : ℕ → Text → Option Text → List Step × Option Text
  unfolding definition_or_step id_def_re match_start strip
  step_line n raw parent =
      let s = strip raw in
      if is_nil s
      then ([], parent)
      else definition_or_step n raw parent (match_start (id_def_re u) s)

  -- The loop, with the number of the line, whether it stands in a fence, and the last defined id.
  unfoldable pub steps_from : ℕ → Bool → Option Text → List Text → List Step
  unfolding step_line is_fence
  steps_from n in_fence parent [] = []
  steps_from n in_fence parent (raw ∷ lines) =
      let fenced = is_fence raw in
      let (found, parent') =
        if fenced
        then ([], parent)
        else if in_fence
        then ([], parent)
        else step_line n raw parent in
      found ++ steps_from (n + 1) (if fenced then not in_fence else in_fence) parent' lines

  unfoldable pub scan_cdsl_instructions : Option (List Text) → List Step
  unfolding steps_from
  scan_cdsl_instructions none = []
  scan_cdsl_instructions (some lines) = steps_from 1 false none lines
