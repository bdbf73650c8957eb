-- ===== src/Issue.antt =====
-- The issues that the validators report: `error` of
-- cypilot/.core/skills/cypilot/scripts/cypilot/utils/codebase.py, and file paths as texts.
use katapult.Base.{ℕ, not, ◌&&◌, List, [], ◌∷◌, Option, none, some, if◌then◌else◌}
use katapult.Base.Lists.{is_nil}
use katapult.Base.Text.{Text, txt, text_dec, text_eq, starts_with, decimal, split_on, fstring}
use katapult.ErrorCodes.{ErrorCode}

-- A path is the text that `str` gives for it.
abbrev pub FilePath : Type 0
FilePath = Text

abbrev pub last_part : List Text → Text
last_part [] = []
last_part (p ∷ []) = p
last_part (p ∷ q ∷ ps) = last_part (q ∷ ps)

-- `path.name` of a normalised path: `.` and the root have the empty name.
unfoldable pub path_name : FilePath → Text
unfolding split_on text_dec txt
path_name p = if text_eq p (txt ".") then [] else last_part (split_on b'/' p)

-- A value of a keyword argument of `error`.
pub data Extra : Type 0 where
  str : Text → Extra
  num : ℕ → Extra
  strs : List Text → Extra
  infos : List (Text × Option Text) → Extra

pub record Issue : Type 0 where
  pub kind : Text
  pub message : Text
  pub line : ℕ
  pub path : Text
  pub code : Option ErrorCode
  pub location : Text
  pub extra : List (Text × Extra)

-- `{k: v for k, v in extra.items() if v is not None}`
abbrev pub given : List (Text × Option Extra) → List (Text × Extra)
given [] = []
given ((k, none) ∷ es) = given es
given ((k, some v) ∷ es) = (k, v) ∷ given es

abbrev location_of : Text → ℕ → Text
location_of p line =
    if not (is_nil p) && not (starts_with p (txt "<"))
    then fstring (p ∷ txt ":" ∷ decimal line ∷ [])
    else p

unfoldable pub error :
    Text → Text → FilePath → ℕ → Option ErrorCode → List (Text × Option Extra) → Issue
unfolding starts_with txt decimal
error kind message path line code extra = record {
  kind = kind;
  message = message;
  line = line;
  path = path;
  code = code;
  location = location_of path line;
  extra = given extra;
}
