-- ===== src/Constraints/Presence.antt =====
-- The loop of `cross_validate_artifacts` of constraints.py over the artifacts: which kinds of ids each
-- defines, and under which headings.
use katapult.Base.{
  Bool, true, false, ◌&&◌, ◌||◌, List, [], ◌∷◌, ◌++◌, Option, none, some, if◌then◌else◌,
}
use katapult.Base.Lists.{is_nil}
use katapult.Base.Sorted.{sorted_set}
use katapult.Base.Text.{Text, txt, strip, text_eq, text_dec, contains}
use katapult.Base.Dict.{Dict, lookup, insert}
use katapult.Base.Unicode.{Unicode}
use katapult.Codebase.Cross.{or_nil}
use katapult.Issue.{FilePath, Extra, str, strs, infos}
use katapult.Constraints.Data.{
  HeadingConstraint, IdConstraint, ArtifactKindConstraints, ArtifactRecord, or_empty,
}
use katapult.Constraints.Kinds.{normal, upper_kind}
use katapult.Constraints.Index.{Row}

-- `str(x or "").strip() or None`
unfoldable pub or_left_out : Option Text → Option Extra
unfolding strip
or_left_out o = filled_text (strip (or_empty o))
  where
    filled_text : Text → Option Extra
    filled_text [] = none
    filled_text (c ∷ t) = some (str (c ∷ t))

-- The headings that are not blank.
unfoldable pub headings_of : Option (List Text) → List Text
unfolding strip
headings_of none = []
headings_of (some hs) = not_blank hs
  where
    not_blank : List Text → List Text
    not_blank [] = []
    not_blank (h ∷ hs) = let rest = not_blank hs in if is_nil (strip h) then rest else h ∷ rest

unfoldable pub stripped : List Text → List Text
unfolding strip
stripped [] = []
stripped (h ∷ hs) = strip h ∷ stripped hs

-- `sorted(allowed_headings)`
unfoldable pub allowed_headings : Option (List Text) → List Text
unfolding headings_of stripped sorted_set text_dec
allowed_headings hs = sorted_set (stripped (headings_of hs))

-- The descriptions of the headings of one kind of artifact, by their ids.
unfoldable pub heading_descs : List HeadingConstraint → Dict Text → Dict Text
unfolding strip insert text_dec
heading_descs [] d = d
heading_descs (hc ∷ hcs) d = heading_descs hcs (
    if is_nil (strip (or_empty hc.id))
    then d
    else if is_nil (strip (or_empty hc.description))
    then d
    else insert (strip (or_empty hc.id)) (strip (or_empty hc.description)) d)

-- `heading_desc_by_kind`
unfoldable pub heading_desc_by_kind :
    Unicode → List ArtifactRecord → Dict (Dict Text) → Dict (Dict Text)
unfolding heading_descs upper_kind insert text_dec
heading_desc_by_kind u [] d = d
heading_desc_by_kind u (art ∷ arts) d = heading_desc_by_kind u arts (noted art.constraints)
  where
    noted : Option ArtifactKindConstraints → Dict (Dict Text)
    noted none = d
    noted (some c) =
        insert (upper_kind u art.artifact_kind) (heading_descs (or_nil c.headings) []) d

-- `headings_info_for_kind(kind, heading_ids)`
unfoldable pub headings_info_for_kind :
    Unicode → Dict (Dict Text) → Text → List Text → List (Text × Option Text)
unfolding upper_kind lookup strip text_dec
headings_info_for_kind u descs kind [] = []
headings_info_for_kind u descs kind (hid ∷ hids) =
    let rest = headings_info_for_kind u descs kind hids in
    if is_nil (strip hid)
    then rest
    else (strip hid, lookup (strip hid) (or_nil (lookup (upper_kind u kind) descs))) ∷ rest

-- A list as an argument, left out where it is empty.
abbrev pub given_texts : List Text → Option Extra
given_texts [] = none
given_texts (t ∷ ts) = some (strs (t ∷ ts))

abbrev pub given_infos : List Text → List (Text × Option Text) → Option Extra
given_infos [] info = none
given_infos (t ∷ ts) info = some (infos info)

unfoldable pub constraint_names : IdConstraint → List (Text × Option Extra)
unfolding or_left_out txt
constraint_names ic =
    (txt "id_kind_name", or_left_out ic.name)
    ∷ (txt "id_kind_description", or_left_out ic.description)
    ∷ (txt "id_kind_template", or_left_out ic.template)
    ∷ []

-- The rows of all ids that stand in the file and have a system.
unfoldable pub defs_in_file : FilePath → Dict (List Row) → List Row
unfolding text_dec
defs_in_file path [] = []
defs_in_file path ((id, rows) ∷ defs) = of_file rows ++ defs_in_file path defs
  where
    has_system : Option Text → Bool
    has_system none = false
    has_system (some s) = true

    of_file : List Row → List Row
    of_file [] = []
    of_file (d ∷ ds) =
        let rest = of_file ds in
        if text_eq d.artifact_path path && has_system d.system then d ∷ rest else rest

-- `str(d.get("id_kind") or "").lower()`
unfoldable pub kind_of_row : Unicode → Row → Text
kind_of_row u d = u.lower (or_empty d.id_kind)

unfoldable pub of_kind : Unicode → Text → List Row → List Row
unfolding kind_of_row text_dec
of_kind u k [] = []
of_kind u k (d ∷ ds) =
    let rest = of_kind u k ds in if text_eq (kind_of_row u d) k then d ∷ rest else rest

-- `any(h in allowed for h in active)`
abbrev pub any_allowed : List Text → List Text → Bool
any_allowed allowed [] = false
any_allowed allowed (h ∷ active) = contains h allowed || any_allowed allowed active

-- `{str(ic.kind).strip().lower() for ic in c.defined_id}`
unfoldable pub allowed_kinds : Unicode → List IdConstraint → List Text
unfolding normal
allowed_kinds u [] = []
allowed_kinds u (ic ∷ ics) = normal u ic.kind ∷ allowed_kinds u ics
