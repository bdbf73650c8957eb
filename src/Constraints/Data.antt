-- ===== src/Constraints/Data.antt =====
-- The records of constraints.py.
use katapult.Base.{ℕ, Bool, List, [], Option, none, some}
use katapult.Base.Text.{Text}
use katapult.Base.Dict.{Dict}
use katapult.Issue.{FilePath}

pub record ReferenceRule : Type 0 where
  pub coverage : Option Bool
  pub task : Option Bool
  pub priority : Option Bool
  pub headings : Option (List Text)

pub record HeadingConstraint : Type 0 where
  pub level : ℕ
  pub pattern : Option Text
  pub description : Option Text
  pub required : Bool
  pub multiple : Option Bool
  pub numbered : Option Bool
  pub id : Option Text
  pub prev : Option Text
  pub next : Option Text
  pub pointer : Option Text

-- The field `examples` is a list of any objects, of which the checks read nothing: it is left out.
pub record IdConstraint : Type 0 where
  pub kind : Text
  pub required : Bool
  pub name : Option Text
  pub description : Option Text
  pub template : Option Text
  pub task : Option Bool
  pub priority : Option Bool
  pub to_code : Option Bool
  pub headings : Option (List Text)
  pub references : Option (Dict ReferenceRule)

pub record ArtifactKindConstraints : Type 0 where
  pub name : Option Text
  pub description : Option Text
  pub defined_id : List IdConstraint
  pub headings : Option (List HeadingConstraint)
  pub toc : Bool

-- An artifact, with what reading its file gives: its lines, or nothing.
pub record ArtifactRecord : Type 0 where
  pub path : FilePath
  pub artifact_kind : Text
  pub constraints : Option ArtifactKindConstraints
  pub lines : Option (List Text)

-- `str(x or "")`
abbrev pub or_empty : Option Text → Text
or_empty none = []
or_empty (some t) = t
