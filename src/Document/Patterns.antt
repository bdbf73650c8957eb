-- ===== src/Document/Patterns.antt =====
-- The regular expressions of document.py, with the numbers of their named groups.
use katapult.Base.{ℕ, Bool, not, true, List, [], ◌∷◌, some, ◌==◌}
use katapult.Base.Text.{txt, is_space}
use katapult.Base.Unicode.{Unicode, is_digit}
use katapult.Regex.{
  Regex, chr, lit, seq, alt, group, rep, eos, plus, star, plus_lazy, between, char_in,
}
use katapult.Codebase.Data.{cpt_id, is_slug}

-- Patterns one after another.
abbrev pub chain : List Regex → Regex
chain [] = lit []
chain (r ∷ []) = r
chain (r ∷ q ∷ rs) = seq r (chain (q ∷ rs))

-- `(?:r)?`
abbrev pub optional : Regex → Regex
optional r = alt r (lit [])

-- `\s*`, `\s+` and `.` of a pattern
abbrev spaces : Regex
unfolding is_space
spaces = star is_space

abbrev some_spaces : Regex
unfolding is_space
some_spaces = plus is_space

abbrev not_newline : ℕ → Bool
not_newline c = not (c == 10)

abbrev pub task_group : ℕ
task_group = 1

abbrev pub priority_group : ℕ
priority_group = 2

abbrev pub priority_only_group : ℕ
priority_only_group = 3

abbrev pub priority_only2_group : ℕ
priority_only2_group = 4

abbrev pub id_group : ℕ
id_group = 5

abbrev pub id2_group : ℕ
id2_group = 6

abbrev pub id3_group : ℕ
id3_group = 7

abbrev pub id4_group : ℕ
id4_group = 8

abbrev pub check_group : ℕ
check_group = 1

abbrev pub phase_group : ℕ
phase_group = 2

abbrev pub inst_group : ℕ
inst_group = 3

-- `_HEADING_RE`: `^\s*(#{1,6})\s+(.+?)\s*$`
unfoldable pub heading_re : Regex
unfolding spaces some_spaces
heading_re = chain (
    spaces
    ∷ group 1 (between 1 6 (λ c. c == b'#'))
    ∷ some_spaces
    ∷ group 2 (plus_lazy not_newline)
    ∷ spaces
    ∷ eos
    ∷ [])

-- `_CODE_FENCE_RE`
unfoldable pub code_fence_re : Regex
unfolding spaces txt
code_fence_re = seq spaces (lit (txt "```"))

-- A backticked id, the id in the group.
abbrev ticked_id : ℕ → Regex
unfolding txt
ticked_id g = chain (lit (txt "`") ∷ group g cpt_id ∷ lit (txt "`") ∷ [])

-- `_BACKTICK_ID_RE`, and `_CPT_ID_RE`
unfoldable pub backtick_id_re : Regex
unfolding ticked_id
backtick_id_re = ticked_id 1

unfoldable pub cpt_id_re : Regex
unfolding txt
cpt_id_re = group 1 cpt_id

-- `\*\*ID\*\*:\s*` and a backticked id
abbrev bold_id : ℕ → Regex
unfolding txt spaces ticked_id
bold_id g = chain (lit (txt "**ID**:") ∷ spaces ∷ ticked_id g ∷ [])

-- `\[\s*[xX]?\s*\]`
abbrev checkbox : Regex
unfolding txt spaces
checkbox = chain (
    lit (txt "[") ∷ spaces ∷ rep true 0 (some 1) (char_in (txt "xX")) ∷ spaces ∷ lit (txt "]") ∷ [])

module _ (u : Unicode) where
  abbrev digits : Regex
  digits = plus (is_digit u)

  -- A backticked priority, the dash and the spaces round it.
  abbrev priority : ℕ → Regex
  unfolding txt spaces
  priority g = chain (
      lit (txt "`")
      ∷ group g (seq (lit (txt "p")) digits)
      ∷ lit (txt "`")
      ∷ spaces
      ∷ lit (txt "-")
      ∷ spaces
      ∷ [])

  -- `_ID_DEF_RE`: its four alternatives in order.
  unfoldable pub id_def_re : Regex
  unfolding txt spaces some_spaces bold_id priority checkbox
  id_def_re = chain (
      alt (bold_id id_group) (
        alt (seq (optional (priority priority_only2_group)) (bold_id id4_group)) (
          alt (seq (priority priority_only_group) (bold_id id2_group)) (
            chain (
              chr (char_in (txt "-*"))
              ∷ some_spaces
              ∷ group task_group checkbox
              ∷ spaces
              ∷ optional (priority priority_group)
              ∷ bold_id id3_group
              ∷ []))))
      ∷ spaces
      ∷ eos
      ∷ [])

  -- `_ID_REF_RE`
  unfoldable pub id_ref_re : Regex
  unfolding txt spaces ticked_id priority checkbox
  id_ref_re = chain (
      optional (
        alt
          (chain (
            group task_group checkbox
            ∷ spaces
            ∷ alt (priority priority_group) (seq (lit (txt "-")) spaces)
            ∷ []))
          (priority priority_only_group))
      ∷ ticked_id id_group
      ∷ spaces
      ∷ eos
      ∷ [])

  -- `_CDSL_LINE_RE`
  unfoldable pub cdsl_line_re : Regex
  unfolding txt spaces some_spaces
  cdsl_line_re = chain (
      spaces
      ∷ alt (chain (digits ∷ lit (txt ".") ∷ some_spaces ∷ [])) (seq (lit (txt "-")) some_spaces)
      ∷ lit (txt "[")
      ∷ spaces
      ∷ group check_group (chr (char_in (txt "xX ")))
      ∷ spaces
      ∷ lit (txt "]")
      ∷ spaces
      ∷ lit (txt "-")
      ∷ spaces
      ∷ lit (txt "`")
      ∷ group phase_group (seq (alt (lit (txt "p")) (lit (txt "ph-"))) digits)
      ∷ lit (txt "`")
      ∷ spaces
      ∷ lit (txt "-")
      ∷ spaces
      ∷ plus not_newline
      ∷ spaces
      ∷ lit (txt "-")
      ∷ spaces
      ∷ lit (txt "`inst-")
      ∷ group inst_group (plus is_slug)
      ∷ lit (txt "`")
      ∷ spaces
      ∷ eos
      ∷ [])

  -- `_CDSL_PHASE_NUM_RE`
  unfoldable pub cdsl_phase_num_re : Regex
  unfolding txt
  cdsl_phase_num_re = chain (alt (lit (txt "p")) (lit (txt "ph-")) ∷ group 1 digits ∷ eos ∷ [])
