-- ===== src/Parsing/Tests.antt =====
-- A run of the split into sections, and its law at that run.
use katapult.Base.{◌≡◌, refl, [], ◌∷◌}
use katapult.Base.Text.{Text, txt, text_dec}
use katapult.Base.Dict.{keys}
use katapult.Base.Unicode.{ascii}
use katapult.Parsing.{heading_id_re}
use katapult.Parsing.Sections.{split_by_section_letter, split_by_section_letter_with_offsets}
use katapult.Parsing.Sections.Agree.{split_by_section_letter-agree}

abbrev artifact : Text
unfolding txt
artifact = txt "# Title\n## B. Later\none\n## A. First\n## B. Again\ntwo\n"

split_by_section_letter-agree_example :
    let (order, sections, offsets) =
      split_by_section_letter_with_offsets ascii heading_id_re artifact in
    ((order, sections) ≡ split_by_section_letter ascii heading_id_re artifact)
    × (keys sections ≡ order)
    × (keys offsets ≡ order)
split_by_section_letter-agree_example = split_by_section_letter-agree ascii heading_id_re artifact

split_artifact :
    split_by_section_letter ascii heading_id_re artifact
    ≡ (txt "B" ∷ txt "A" ∷ [], (txt "B", txt "one" ∷ txt "two" ∷ []) ∷ (txt "A", []) ∷ [])
unfolding split_by_section_letter text_dec heading_id_re artifact txt
split_artifact = refl
