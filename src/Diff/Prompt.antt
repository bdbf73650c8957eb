-- ===== src/Diff/Prompt.antt =====
-- The prompts of diff_engine.py. Standard input is the list of the lines that are still to be
-- read; at its end `input()` raises `EOFError`. What the prompts print is left out.
pub mod Bulk
use katapult.Base.{
  ℕ, Bool, true, false, not, ◌||◌, List, [], ◌∷◌, Option, none, some, if◌then◌else◌,
}
use katapult.Base.Text.{Text, txt, strip, text_eq, text_dec}
use katapult.Base.Unicode.{Unicode}

pub data Decision : Type 0 where
  accept decline modify : Decision

-- The bulk flags of `review_state`, and standard input.
pub record Review : Type 0 where
  pub accept_all : Bool
  pub decline_all : Bool
  pub input : List Text

-- The answers of `_prompt_kit_file`, on what was typed.
unfoldable pub answer_kit_file : Text → Review → Decision × Review
unfolding txt text_dec
answer_kit_file response r =
    if text_eq response (txt "a")
    then (accept, r)
    else if text_eq response (txt "d")
    then (decline, r)
    else if text_eq response (txt "A")
    then (accept, record r { accept_all = true })
    else if text_eq response (txt "D")
    then (decline, record r { decline_all = true })
    else if text_eq response (txt "m")
    then (modify, r)
    else (decline, r)

unfoldable pub ask_kit_file : List Text → Review → Decision × Review
unfolding answer_kit_file strip
ask_kit_file [] r = (decline, r)
ask_kit_file (line ∷ rest) r = answer_kit_file (strip line) (record r { input = rest })

unfoldable pub prompt_kit_file : Review → Decision × Review
unfolding ask_kit_file
prompt_kit_file r =
    if r.accept_all
    then (accept, r)
    else if r.decline_all
    then (decline, r)
    else ask_kit_file r.input r

pub data Unresolved : Type 0 where
  retry take_upstream keep_yours : Unresolved

module _ (u : Unicode) where
  unfoldable pub prompt_unresolved : List Text → Unresolved × List Text
  unfolding strip txt text_dec
  prompt_unresolved [] = (keep_yours, [])
  prompt_unresolved (line ∷ rest) =
      let response = u.lower (strip line) in
      (
        (if text_eq response (txt "r")
            then retry
            else if text_eq response (txt "a")
            then take_upstream
            else keep_yours),
        rest,
      )

  -- Whether to regenerate the table of contents.
  unfoldable pub prompt_toc_regen : List Text → Bool × List Text
  unfolding strip txt text_dec
  prompt_toc_regen [] = (false, [])
  prompt_toc_regen (line ∷ rest) =
      let answer = u.lower (strip line) in
      (text_eq answer (txt "y") || text_eq answer (txt "yes"), rest)

  -- Whether to go on after a failed regeneration.
  unfoldable pub prompt_toc_error_continue : List Text → Bool × List Text
  unfolding strip txt text_dec
  prompt_toc_error_continue [] = (false, [])
  prompt_toc_error_continue (line ∷ rest) = (not (text_eq (u.lower (strip line)) (txt "s")), rest)
