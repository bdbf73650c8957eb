-- ===== src/Diff/Prompt/Bulk.antt =====
-- The bulk answers of the review.
use katapult.Base.{
  ℕ, zero, suc, ◌≡◌, refl, ◌∙◌, Bool, true, false, not, if◌then◌else◌, List, [], ◌∷◌,
}
use katapult.Base.Text.{Text, txt, strip, text_dec}
use katapult.Diff.Prompt.{Decision, accept, decline, Review, answer_kit_file}
use katapult.Diff.Prompt.{prompt_kit_file}

-- The decisions on as many files as the number says, one prompt after another.
unfoldable pub review : ℕ → Review → List Decision × Review
unfolding prompt_kit_file
review zero r = ([], r)
review (suc n) r = let (d, r') = prompt_kit_file r in let (ds, last) = review n r' in (d ∷ ds, last)

unfoldable pub repeat : ℕ → Decision → List Decision
repeat zero d = []
repeat (suc n) d = d ∷ repeat n d

-- What is left for each decision once one of the flags is set.
prompt-accept_all : (r : Review) → r.accept_all ≡ true → prompt_kit_file r ≡ (accept, r)
unfolding prompt_kit_file
prompt-accept_all r h = rw h

prompt-decline_all :
    (r : Review) → r.accept_all ≡ false → r.decline_all ≡ true → prompt_kit_file r ≡ (decline, r)
unfolding prompt_kit_file
prompt-decline_all r h k = rw (h, k)

review-settled :
    (n : ℕ) (r : Review) (d : Decision) → prompt_kit_file r ≡ (d, r) → review n r ≡ (repeat n d, r)
unfolding review repeat
review-settled zero r d h = refl
review-settled (suc n) r d h = rw (h, review-settled n r d h)

-- The start of a review, with these lines to read.
abbrev pub begin : List Text → Review
begin input = record { accept_all = false; decline_all = false; input = input }

answer_A :
    (s : Text) (r : Review)
    → s ≡ txt "A"
    → answer_kit_file s r ≡ (accept, record r { accept_all = true })
answer_A s r e = rw e (unfold answer_kit_file text_dec txt in refl)

answer_D :
    (s : Text) (r : Review)
    → s ≡ txt "D"
    → answer_kit_file s r ≡ (decline, record r { decline_all = true })
answer_D s r e = rw e (unfold answer_kit_file text_dec txt in refl)

prompt-begin :
    (line : Text) (rest : List Text)
    → prompt_kit_file (begin (line ∷ rest)) ≡ answer_kit_file (strip line) (begin rest)
unfolding prompt_kit_file
prompt-begin line rest = refl

-- With no flag set, the answer `A` accepts this file and every later one, and `D` declines them
-- all; no further line of the input is read.
pub review-bulk :
    (n : ℕ) (line : Text) (rest : List Text) (all : Bool)
    → strip line ≡ (if all then txt "A" else txt "D")
    → review (suc n) (begin (line ∷ rest)) ≡ (
      repeat (suc n) (if all then accept else decline),
      record (begin rest) { accept_all = all; decline_all = not all },
    )
unfolding review repeat
review-bulk n line rest true e = rw (
  prompt-begin line rest ∙ answer_A (strip line) (begin rest) e,
  review-settled n (record (begin rest) { accept_all = true }) accept (prompt-accept_all _ refl),
)
review-bulk n line rest false e = rw (
  prompt-begin line rest ∙ answer_D (strip line) (begin rest) e,
  review-settled n (record (begin rest) { decline_all = true }) decline
      (prompt-decline_all _ refl refl),
)
