-- ===== src/Codebase/Cross/Sets.antt =====
-- The sets that the cross-validation builds, by their members.
use katapult.Base.{
  ℕ, ◌≡◌, refl, ◌↔◌, Bool, true, false, not, ◌&&◌, ◌||◌, List, [], ◌∷◌, arith, inl, inr, Bool-cases,
}
use katapult.Base.Lists.{is_nil}
use katapult.Base.Sorted.{sorted_set, contains-sorted_set}
use katapult.Base.Text.{Text, text_eq, contains}
use katapult.Base.Members.{contains-append, contains-keys-insert, eq-nil_iff}
use katapult.Base.Dict.{Dict, lookup, insert, keys, lookup-insert}
use katapult.Issue.{FilePath}
use katapult.Codebase.Data.{BlockMarker, CodeReference, CodeFile}
use katapult.Codebase.Query.{list_ids, reference_ids}
use katapult.Codebase.Cross.{
  minus, or_nil, code_ids, forbidden_in, first_forbidden, Insts, insts_in,
}
use katapult.Codebase.Cross.{code_insts, insts_of}

-- Some file references the id.
unfoldable pub is_referenced : Text → List CodeFile → Bool
is_referenced k [] = false
is_referenced k (f ∷ fs) = contains k (reference_ids f.references) || is_referenced k fs

-- Some block of the list implements the instruction of the id.
unfoldable pub block_in : Text → Text → List BlockMarker → Bool
block_in id inst [] = false
block_in id inst (b ∷ bs) = (text_eq id b.id && text_eq inst b.inst) || block_in id inst bs

-- Some block of some file does.
unfoldable pub has_block : Text → Text → List CodeFile → Bool
unfolding block_in
has_block id inst [] = false
has_block id inst (f ∷ fs) = block_in id inst f.block_markers || has_block id inst fs

pub contains-minus :
    (k : Text) (a b : List Text) → contains k (minus a b) ≡ (contains k a && not (contains k b))
unfolding minus
contains-minus k [] b = refl
contains-minus k (x ∷ a) b = ground (arith, contains-minus k a b)

-- The sorted difference of two sets is empty when the first lies within the second.
pub minus-eq-nil_iff :
    (a b : List Text)
    → (sorted_set (minus a b) ≡ []) ↔ ((k : Text) → contains k a ≡ true → contains k b ≡ true)
minus-eq-nil_iff a b = (
  λ e k h. ground (
    arith,
    (eq-nil_iff (sorted_set (minus a b))).0 e k,
    contains-sorted_set k (minus a b),
    contains-minus k a b,
  ),
  λ h.
      (eq-nil_iff (sorted_set (minus a b))).1
        λ k. ground (arith, h k, contains-sorted_set k (minus a b), contains-minus k a b),
)

-- A difference that is not empty has a member.
pub minus_member :
    (a b : List Text)
    → is_nil (minus a b) ≡ false
    → (k : Text) × (contains k a ≡ true) × (contains k b ≡ false)
unfolding minus
minus_member [] b h = absurd (cc)
minus_member (x ∷ a) b h = elim (Bool-cases (contains x b)) [
  | inl old ↦ let (k, p, q) = minus_member a b (ground arith) in (k, ground arith, q)
  | inr new ↦ (x, ground arith, new)
]

pub contains-code_ids :
    (k : Text) (fs : List CodeFile) → contains k (code_ids fs) ≡ is_referenced k fs
unfolding code_ids is_referenced list_ids
contains-code_ids k [] = refl
contains-code_ids k (f ∷ fs) = ground (
  arith,
  contains-append k (list_ids f) (code_ids fs),
  contains-sorted_set k (reference_ids f.references),
  contains-code_ids k fs,
)

contains-forbidden_in :
    (k : Text) (forbidden : List Text) (path : FilePath) (rs : List CodeReference)
    (found : Dict (FilePath × ℕ))
    → contains k (keys (forbidden_in forbidden path rs found))
      ≡ (contains k (keys found) || (contains k forbidden && contains k (reference_ids rs)))
unfolding forbidden_in
contains-forbidden_in k forbidden path [] found = ground arith
contains-forbidden_in k forbidden path (r ∷ rs) found = ground (
  arith,
  contains-forbidden_in k forbidden path rs found,
  contains-forbidden_in k forbidden path rs (insert r.id (path, r.line) found),
  contains-keys-insert k r.id (path, r.line) found,
)

-- The ids of `first_forbidden` are the forbidden ones that some file references.
pub contains-first_forbidden :
    (k : Text) (forbidden : List Text) (fs : List CodeFile) (found : Dict (FilePath × ℕ))
    → contains k (keys (first_forbidden forbidden fs found))
      ≡ (contains k (keys found) || (contains k forbidden && is_referenced k fs))
unfolding first_forbidden is_referenced
contains-first_forbidden k forbidden [] found = ground arith
contains-first_forbidden k forbidden (f ∷ fs) found = ground (
  arith,
  contains-first_forbidden k forbidden fs (forbidden_in forbidden f.path f.references found),
  contains-forbidden_in k forbidden f.path f.references found,
)

contains-insts_in :
    (id i : Text) (path : FilePath) (bs : List BlockMarker) (d : Insts)
    → contains i (insts_of id (insts_in path bs d))
      ≡ (contains i (insts_of id d) || block_in id i bs)
unfolding insts_in block_in insts_of
contains-insts_in id i path [] d = ground arith
contains-insts_in id i path (b ∷ bs) d =
    let inner = insert b.inst (path, b.start_line) (or_nil (lookup b.id d)) in
    ground (
      arith,
      contains-insts_in id i path bs (insert b.id inner d),
      lookup-insert id b.id inner d,
      contains-keys-insert i b.inst (path, b.start_line) (or_nil (lookup b.id d)),
    )

-- The instructions that the blocks of all files give for an id.
pub contains-code_insts :
    (id i : Text) (fs : List CodeFile) (d : Insts)
    → contains i (insts_of id (code_insts fs d)) ≡ (contains i (insts_of id d) || has_block id i fs)
unfolding code_insts has_block
contains-code_insts id i [] d = ground arith
contains-code_insts id i (f ∷ fs) d = ground (
  arith,
  contains-code_insts id i fs (insts_in f.path f.block_markers d),
  contains-insts_in id i f.path f.block_markers d,
)

contains-no_insts : (k i : Text) → contains i (insts_of k []) ≡ false
unfolding insts_of lookup
contains-no_insts k i = refl

-- The instructions that the code implements are those of its blocks.
pub contains-all_insts :
    (k i : Text) (fs : List CodeFile)
    → contains i (insts_of k (code_insts fs [])) ≡ has_block k i fs
contains-all_insts k i fs = ground (arith, contains-code_insts k i fs [], contains-no_insts k i)
