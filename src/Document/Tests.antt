-- ===== src/Document/Tests.antt =====
-- Runs of the scans of document.py, and their laws at those runs.
use katapult.Base.{◌≡◌, ℕ, refl, true, List, [], ◌∷◌, map, Option, none, some, ◌+◌}
use katapult.Base.Lists.{All, all, length, take, get_elem?}
use katapult.Base.Count.{count_by}
use katapult.Base.Text.{Text, txt, text_dec}
use katapult.Base.Unicode.{ascii}
use katapult.Document.Ids.{is_fence, scan_cpt_ids}
use katapult.Document.Ids.Lines.{on_line, hits_at, scan_cpt_ids-lines}
use katapult.Document.Outline.{headings_by_line}
use katapult.Document.Outline.Depth.{IsShallow, headings_by_line-IsShallow}
use katapult.Document.Steps.{scan_cdsl_instructions}
use katapult.Document.Steps.Parents.{has_parent, scan_cdsl_instructions-owned}
use katapult.Document.Content.Search.{get_content_scoped}
use katapult.Document.Content.Ranges.{get_content_scoped-IsExcerpt}
use katapult.Document.Content.Excerpt.{IsExcerpt}

abbrev artifact : List Text
unfolding txt
artifact =
    txt "# Design"
    ∷ txt "- [x] `p1` - **ID**: `cpt-a-b`"
    ∷ txt "1. [x] - `p2` - Do it - `inst-do`"
    ∷ txt "```"
    ∷ txt "**ID**: `cpt-no`"
    ∷ txt "```"
    ∷ txt "See `cpt-c-d` and `cpt-e-f`"
    ∷ txt "## End"
    ∷ []

scan_cpt_ids_result :
    map {B = Text × ℕ} (λ h. (h.id, h.line)) (scan_cpt_ids ascii (some artifact))
    ≡ (txt "cpt-a-b", 2) ∷ (txt "cpt-c-d", 7) ∷ (txt "cpt-e-f", 7) ∷ []
unfolding scan_cpt_ids artifact txt
scan_cpt_ids_result = refl

scan_cpt_ids-lines_example :
    on_line 7 (scan_cpt_ids ascii (some artifact))
    ≡ hits_at ascii 7 (count_by is_fence (take 6 artifact)) (get_elem? artifact 6)
scan_cpt_ids-lines_example = scan_cpt_ids-lines ascii artifact 6

headings_by_line-IsShallow_example :
    (length (headings_by_line (some artifact)) ≡ length artifact + 1)
    × All IsShallow (headings_by_line (some artifact))
headings_by_line-IsShallow_example = headings_by_line-IsShallow artifact

scan_cdsl_instructions_result :
    map {B = Text × Option Text}
      (λ s. (s.inst, s.parent_id))
      (scan_cdsl_instructions ascii (some artifact))
    ≡ (txt "do", some (txt "cpt-a-b")) ∷ []
unfolding scan_cdsl_instructions artifact txt
scan_cdsl_instructions_result = refl

scan_cdsl_instructions-owned_example :
    all
      (has_parent (scan_cpt_ids ascii (some artifact)))
      (scan_cdsl_instructions ascii (some artifact))
    ≡ true
scan_cdsl_instructions-owned_example = scan_cdsl_instructions-owned ascii (some artifact)

get_content_scoped_result :
    get_content_scoped ascii (some artifact) (txt "cpt-a-b")
    ≡ some (
      txt
          "1. [x] - `p2` - Do it - `inst-do`\n```\n**ID**: `cpt-no`\n```\nSee `cpt-c-d` and `cpt-e-f`\n## End",
      (3, 8),
    )
unfolding get_content_scoped artifact txt text_dec
get_content_scoped_result = refl

get_content_scoped-IsExcerpt_example : IsExcerpt artifact (
  txt
      "1. [x] - `p2` - Do it - `inst-do`\n```\n**ID**: `cpt-no`\n```\nSee `cpt-c-d` and `cpt-e-f`\n## End",
  (3, 8),
)
get_content_scoped-IsExcerpt_example =
    get_content_scoped-IsExcerpt ascii artifact (txt "cpt-a-b") _ get_content_scoped_result

-- A definition that begins with its priority alone: the scan for ids finds it, but the instruction
-- under it goes to the definition above.
abbrev with_priority : List Text
unfolding txt
with_priority =
    txt "**ID**: `cpt-a-b`"
    ∷ txt "`p1` - **ID**: `cpt-c-d`"
    ∷ txt "1. [x] - `p2` - Do it - `inst-do`"
    ∷ []

scan_cpt_ids_priority :
    map (λ h. h.id) (scan_cpt_ids ascii (some with_priority)) ≡ txt "cpt-a-b" ∷ txt "cpt-c-d" ∷ []
unfolding scan_cpt_ids with_priority txt
scan_cpt_ids_priority = refl

scan_cdsl_instructions_priority :
    map (λ s. s.parent_id) (scan_cdsl_instructions ascii (some with_priority))
    ≡ some (txt "cpt-a-b") ∷ []
unfolding scan_cdsl_instructions with_priority txt
scan_cdsl_instructions_priority = refl

get_content_scoped_priority : get_content_scoped ascii (some with_priority) (txt "cpt-c-d") ≡ none
unfolding get_content_scoped with_priority txt text_dec
get_content_scoped_priority = refl
