-- ===== src/Document/Content/Names.antt =====
-- The id that a line of a block gives: `_normalize_cpt_id_from_line` of document.py.
use katapult.Base.{
  Bool, false, ◌&&◌, List, [], ◌∷◌, map, Option, none, some, ltb, ◌==◌, if◌then◌else◌,
}
use katapult.Base.Lists.{length, is_nil}
use katapult.Base.Text.{Text, txt, strip, lstrip_by, rstrip_by, starts_with}
use katapult.Regex.{fullmatch, finditer, captured}
use katapult.Document.Patterns.{cpt_id_re}

-- `_CPT_ID_RE.findall(s)`: the one group of each match.
unfoldable pub find_ids : Text → List Text
unfolding finditer cpt_id_re
find_ids s = map (λ m. captured 1 m.groups) (finditer cpt_id_re s)

abbrev pub first_id : List Text → Option Text
first_id [] = none
first_id (t ∷ ts) = some t

-- `s.strip("`")`
unfoldable pub strip_ticks : Text → Text
unfolding lstrip_by rstrip_by
strip_ticks s = rstrip_by (λ c. c == 96) (lstrip_by (λ c. c == 96) s)

-- The text begins and ends with a tick, and there is something between.
abbrev pub ends_in_tick : Text → Bool
ends_in_tick [] = false
ends_in_tick (c ∷ []) = c == 96
ends_in_tick (c ∷ d ∷ s) = ends_in_tick (d ∷ s)

unfoldable pub undecorated : Text → Text
unfolding strip_ticks strip starts_with txt
undecorated s =
    if starts_with s (txt "`") && (ends_in_tick s && ltb 2 (length s))
    then strip (strip_ticks s)
    else s

-- A text of the id's characters is its own group.
unfoldable pub id_of : Text → Option Text
unfolding find_ids fullmatch cpt_id_re starts_with txt
id_of s =
    if starts_with s (txt "cpt-")
    then (if fullmatch cpt_id_re s then some s else none)
    else first_id (find_ids s)

-- `_normalize_cpt_id_from_line(line)`
unfoldable pub normalize_cpt_id_from_line : Text → Option Text
unfolding id_of undecorated find_ids strip starts_with txt
normalize_cpt_id_from_line line =
    let s = strip line in
    if is_nil s
    then none
    else if starts_with s (txt "**ID**:")
    then first_id (find_ids s)
    else id_of (undecorated s)
