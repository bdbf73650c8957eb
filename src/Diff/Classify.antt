-- ===== src/Diff/Classify.antt =====
-- `_enumerate_kit_files`, `DiffReport` and `_classify_kit_files` of diff_engine.py.
pub mod Exact
use katapult.Base.{
  ℕ, Bool, true, false, not, ◌&&◌, ◌||◌, List, [], ◌∷◌, ◌++◌, Option, none, some, if◌then◌else◌,
}
use katapult.Base.Lists.{is_nil}
use katapult.Base.Sorted.{sorted_set}
use katapult.Base.Text.{Text, txt, join, contains, text_eq, text_dec}
use katapult.Base.Dict.{Dict, lookup, insert, keys}
use katapult.Base.Unicode.{is_some}
use katapult.Issue.{last_part}
use katapult.Diff.Codec.{Bytes}

pub record DiffReport : Type 0 where
  pub added : List Text
  pub removed : List Text
  pub modified : List Text
  pub unchanged : List Text

abbrev pub has_changes : DiffReport → Bool
has_changes r = not (is_nil r.added) || not (is_nil r.removed) || not (is_nil r.modified)

-- A path below the directory, as `rglob` lists it; the bytes are `none` where reading raises.
pub record DirEntry : Type 0 where
  pub parts : List Text
  pub is_file : Bool
  pub bytes : Option Bytes

-- `_KIT_EXCLUDE_FILES` and `_KIT_EXCLUDE_DIRS`
unfoldable pub exclude_files : List Text
unfolding txt
exclude_files = txt "conf.toml" ∷ txt "blueprint_hashes.toml" ∷ []

unfoldable pub exclude_dirs : List Text
unfolding txt
exclude_dirs = txt "blueprints" ∷ txt "__pycache__" ∷ txt ".prev" ∷ []

abbrev or_none : Option (List Text) → List Text
or_none none = []
or_none (some xs) = xs

-- `any(part in names for part in parts)`
unfoldable pub any_in : List Text → List Text → Bool
any_in names [] = false
any_in names (p ∷ ps) = contains p names || any_in names ps

-- The include filter: a path of one part goes by its name, a longer one by its first part.
unfoldable pub is_included : List Text → List Text → List Text → Bool
is_included dirs files [] = false
is_included dirs files (name ∷ []) = contains name files
is_included dirs files (top ∷ p ∷ ps) = not (is_nil top) && contains top dirs

unfoldable pub is_excluded : List Text → Bool
unfolding exclude_files exclude_dirs any_in
is_excluded parts = contains (last_part parts) exclude_files || any_in exclude_dirs parts

unfoldable pub is_kit_file : Option (List Text) → Option (List Text) → List Text → Bool
unfolding is_included is_excluded text_dec
is_kit_file dirs files parts =
    if is_some dirs || is_some files
    then is_included (or_none dirs) (or_none files) parts
    else not (is_excluded parts)

abbrev read_into : Text → Option Bytes → Dict Bytes → Dict Bytes
read_into path none files = files
read_into path (some b) files = insert path b files

-- The loop over the sorted entries.
unfoldable pub collect_files :
    Option (List Text) → Option (List Text) → List DirEntry → Dict Bytes → Dict Bytes
unfolding is_kit_file join txt insert
collect_files dirs files [] found = found
collect_files dirs files (e ∷ es) found = collect_files dirs files es (
    if e.is_file && is_kit_file dirs files e.parts
    then read_into (join (txt "/") e.parts) e.bytes found
    else found)

-- `none` for a path that is no directory.
unfoldable pub enumerate_kit_files :
    Option (List Text) → Option (List Text) → Option (List DirEntry) → Dict Bytes
unfolding collect_files
enumerate_kit_files dirs files none = []
enumerate_kit_files dirs files (some es) = collect_files dirs files es []

-- One path of the loop, from what the two sides hold.
unfoldable pub classify_one : Text → Option Bytes → Option Bytes → DiffReport → DiffReport
unfolding text_dec
classify_one p (some s) none r = record r { added = r.added ++ p ∷ [] }
classify_one p none (some u) r = record r { removed = r.removed ++ p ∷ [] }
classify_one p (some s) (some u) r =
    if text_eq s u
    then record r { unchanged = r.unchanged ++ p ∷ [] }
    else record r { modified = r.modified ++ p ∷ [] }
classify_one p none none r = r

unfoldable pub classify_paths : Dict Bytes → Dict Bytes → List Text → DiffReport → DiffReport
unfolding classify_one lookup
classify_paths source user [] r = r
classify_paths source user (p ∷ ps) r =
    classify_paths source user ps (classify_one p (lookup p source) (lookup p user) r)

abbrev pub empty_report : DiffReport
empty_report = record { added = []; removed = []; modified = []; unchanged = [] }

unfoldable pub classify_kit_files : Dict Bytes → Dict Bytes → DiffReport
unfolding classify_paths sorted_set keys
classify_kit_files source user =
    classify_paths source user (sorted_set (keys source ++ keys user)) empty_report
