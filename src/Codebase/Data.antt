-- ===== src/Codebase/Data.antt =====
-- The data model of codebase.py: marker patterns, markers, references and the file that holds them.
use katapult.Base.{ℕ, Bool, false, ◌&&◌, ◌||◌, List, [], ◌∷◌, ◌++◌, Option, ◌==◌, leb}
use katapult.Base.Text.{Text, txt}
use katapult.Base.Unicode.{Unicode, is_digit}
use katapult.Regex.{Regex, chr, lit, seq, alt, group, not_ahead, plus, star}
use katapult.Issue.{FilePath, Issue}

-- `[a-z0-9]`, and `[a-z0-9-]`
abbrev pub is_slug_start : ℕ → Bool
is_slug_start c = (leb b'a' c && leb c b'z') || (leb b'0' c && leb c b'9')

abbrev pub is_slug : ℕ → Bool
is_slug c = is_slug_start c || c == b'-'

-- `cpt-[a-z0-9][a-z0-9-]+`
abbrev pub cpt_id : Regex
unfolding txt
cpt_id = seq (lit (txt "cpt-")) (seq (chr is_slug_start) (plus is_slug))

-- The named groups of the patterns.
abbrev pub kind_group : ℕ
kind_group = 1

abbrev pub id_group : ℕ
id_group = 2

abbrev pub phase_group : ℕ
phase_group = 3

abbrev pub inst_group : ℕ
inst_group = 4

pub record ScopeMarker : Type 0 where
  pub kind : Text
  pub id : Text
  pub phase : ℕ
  pub line : ℕ
  pub raw : Text

pub record BlockMarker : Type 0 where
  pub id : Text
  pub phase : ℕ
  pub inst : Text
  pub start_line : ℕ
  pub end_line : ℕ
  pub content : List Text

pub data MarkerType : Type 0 where
  scope block inline : MarkerType

pub record CodeReference : Type 0 where
  pub id : Text
  pub line : ℕ
  pub kind : Option Text
  pub phase : Option ℕ
  pub inst : Option Text
  pub marker_type : MarkerType

pub record CodeFile : Type 0 where
  pub path : FilePath
  pub scope_markers : List ScopeMarker
  pub block_markers : List BlockMarker
  pub references : List CodeReference
  pub errors : List Issue
  pub loaded : Bool

-- `CodeFile(path=…)`
abbrev pub code_file : FilePath → CodeFile
code_file p = record {
  path = p;
  scope_markers = [];
  block_markers = [];
  references = [];
  errors = [];
  loaded = false;
}

abbrev pub add_error : CodeFile → Issue → CodeFile
add_error f e = record f { errors = f.errors ++ e ∷ [] }

module _ (u : Unicode) where
  -- `:(?:p|ph-)(?P<phase>\d+)`
  abbrev phase_part : Regex
  unfolding txt
  phase_part =
      seq (lit (txt ":"))
        (seq (alt (lit (txt "p")) (lit (txt "ph-"))) (group phase_group (plus (is_digit u))))

  -- `_SCOPE_MARKER_RE`
  unfoldable pub scope_marker_re : Regex
  unfolding txt
  scope_marker_re = seq (lit (txt "@cpt-")) (
      seq (not_ahead (lit (txt "begin:"))) (
        seq (not_ahead (lit (txt "end:"))) (
          seq (group kind_group (seq (chr (λ c. leb b'a' c && leb c b'z')) (star is_slug)))
            (seq (lit (txt ":")) (seq (group id_group cpt_id) phase_part)))))

  -- `_BLOCK_BEGIN_RE` and `_BLOCK_END_RE`, which differ in their first characters.
  abbrev block_re : Text → Regex
  unfolding txt
  block_re head = seq (lit head) (
      seq (group id_group cpt_id)
        (seq phase_part (seq (lit (txt ":inst-")) (group inst_group (plus is_slug)))))

  unfoldable pub block_begin_re : Regex
  unfolding txt
  block_begin_re = block_re (txt "@cpt-begin:")

  unfoldable pub block_end_re : Regex
  unfolding txt
  block_end_re = block_re (txt "@cpt-end:")
