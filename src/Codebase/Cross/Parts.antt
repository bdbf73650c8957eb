-- ===== src/Codebase/Cross/Parts.antt =====
-- What it means that a part of `cross_validate_code` reports no error.
use katapult.Base.{
  ℕ, ◌≡◌, refl, ◌∙◌, sym, ◌↔◌, true, false, not, List, [], ◌∷◌, Option, none, some, arith,
}
use katapult.Base.Lists.{is_nil}
use katapult.Base.Sorted.{sorted_set, contains-sorted_set}
use katapult.Base.Text.{Text, text_dec, contains}
use katapult.Base.Members.{append_nil_iff, contains_self, contains_later, same_members}
use katapult.Base.Dict.{Dict, lookup, keys}
use katapult.Issue.{FilePath}
use katapult.Codebase.Data.{CodeReference, CodeFile}
use katapult.Codebase.Query.{reference_ids}
use katapult.Codebase.Cross.{minus, or_nil, code_ids, first_forbidden, Insts, code_insts, insts_of}
use katapult.Codebase.Cross.{all_or, orphans, orphans_in, unchecked, is_incomplete}
use katapult.Codebase.Cross.Sets.{is_referenced, has_block, contains-minus, minus-eq-nil_iff}
use katapult.Codebase.Cross.Sets.{minus_member, contains-code_ids, contains-first_forbidden}
use katapult.Codebase.Cross.Sets.{contains-all_insts}
use katapult.Codebase.Cross.Validate.{no_markers, insts_missing, inst_orphans, insts_of_id}
use katapult.Codebase.Cross.Validate.{insts_loop, instructions, unchecked_tasks}

-- Every reference names an id of an artifact.
abbrev pub IsDefined : List Text → List CodeFile → Type 0
IsDefined ids fs = (k : Text) → is_referenced k fs ≡ true → contains k ids ≡ true

orphans_in_nil_iff :
    (ids : List Text) (path : FilePath) (rs : List CodeReference)
    → (orphans_in ids path rs ≡ [])
      ↔ ((k : Text) → contains k (reference_ids rs) ≡ true → contains k ids ≡ true)
unfolding orphans_in
orphans_in_nil_iff ids path [] = (λ e k h. absurd (cc), λ h. refl)
orphans_in_nil_iff ids path (r ∷ rs) = (
  λ e k h. ground (
    arith,
    (orphans_in_nil_iff ids path rs).0,
    (orphans_in_nil_iff ids path rs).0 (ground arith) k,
  ),
  λ h. ground (
    arith,
    h r.id (contains_self r.id (reference_ids rs)),
    (orphans_in_nil_iff ids path rs).1 (λ k p. h k (contains_later k r.id (reference_ids rs) p)),
  ),
)

pub orphans_nil_iff :
    (ids : List Text) (fs : List CodeFile) → (orphans ids fs ≡ []) ↔ IsDefined ids fs
unfolding orphans is_referenced
orphans_nil_iff ids [] = (λ e k h. absurd (cc), λ h. refl)
orphans_nil_iff ids (f ∷ fs) =
    let here = orphans_in_nil_iff ids f.path f.references in
    let split = append_nil_iff (orphans_in ids f.path f.references) (orphans ids fs) in
    (
      λ e k h. ground (arith, here.0 (split.0 e).0 k, (orphans_nil_iff ids fs).0 (split.0 e).1 k),
      λ h. split.1 (
        here.1 (λ k p. h k (ground arith)),
        (orphans_nil_iff ids fs).1 (λ k p. h k (ground arith)),
      ),
    )

no_markers_nil_iff : (ids : List Text) → (no_markers ids ≡ []) ↔ (ids ≡ [])
unfolding no_markers
no_markers_nil_iff [] = (λ e. refl, λ e. refl)
no_markers_nil_iff (x ∷ ids) = (λ e. absurd (cc), λ e. absurd (cc))

-- Every id that must be implemented is referenced.
abbrev pub IsCovered : List Text → List CodeFile → Type 0
IsCovered to_code fs = (k : Text) → contains k to_code ≡ true → is_referenced k fs ≡ true

pub uncovered_nil_iff :
    (to_code : List Text) (fs : List CodeFile)
    → (no_markers (sorted_set (minus to_code (code_ids fs))) ≡ []) ↔ IsCovered to_code fs
uncovered_nil_iff to_code fs =
    let set = sorted_set (minus to_code (code_ids fs)) in
    let iff = minus-eq-nil_iff to_code (code_ids fs) in
    (
      λ e k h. sym (contains-code_ids k fs) ∙ iff.0 ((no_markers_nil_iff set).0 e) k h,
      λ h. (no_markers_nil_iff set).1 (iff.1 λ k p. contains-code_ids k fs ∙ h k p),
    )

-- An instruction of the id that no block implements.
abbrev pub Lacks : Dict (List Text) → List CodeFile → Text → Type 0
Lacks all fs k =
    (i : Text) × (contains i (or_nil (lookup k all)) ≡ true) × (has_block k i fs ≡ false)

-- Every forbidden id that is referenced is still waiting for an instruction.
abbrev pub IsWaiting : List Text → Dict (List Text) → List CodeFile → Type 0
IsWaiting forbidden all fs =
    (k : Text) → contains k forbidden ≡ true → is_referenced k fs ≡ true → Lacks all fs k

unchecked_nil_iff :
    (all : Dict (List Text)) (d : Insts) (found : Dict (FilePath × ℕ)) (ids : List Text)
    → (unchecked all d found ids ≡ [])
      ↔ ((k : Text) → contains k ids ≡ true → is_incomplete all d k ≡ true)
unfolding unchecked
unchecked_nil_iff all d found [] = (λ e k h. absurd (cc), λ h. refl)
unchecked_nil_iff all d found (id ∷ ids) = (
  λ e k h. ground (arith, (unchecked_nil_iff all d found ids).0 (ground arith) k),
  λ h. ground (
    arith,
    h id (contains_self id ids),
    (unchecked_nil_iff all d found ids).1 (λ k p. h k (contains_later k id ids p)),
  ),
)

not_is_nil : (xs : List Text) (k : Text) → contains k xs ≡ true → is_nil xs ≡ false
not_is_nil [] k h = cc
not_is_nil (x ∷ xs) k h = refl

incomplete_lem :
    (all : Dict (List Text)) (d : Insts) (k : Text)
    → is_incomplete all d k ≡ not (is_nil (minus (or_nil (lookup k all)) (insts_of k d)))
unfolding is_incomplete
incomplete_lem all d k = refl

incomplete_iff :
    (all : Dict (List Text)) (fs : List CodeFile) (k : Text)
    → (is_incomplete all (code_insts fs []) k ≡ true) ↔ Lacks all fs k
incomplete_iff all fs k =
    let art = or_nil (lookup k all) in
    let d = code_insts fs [] in
    (
      λ e.
          let (i, p, q) =
            minus_member art (insts_of k d) (ground (arith, incomplete_lem all d k)) in
          (i, p, sym (contains-all_insts k i fs) ∙ q),
      λ l. ground (
        arith,
        l.1,
        l.2,
        incomplete_lem all d k,
        not_is_nil (minus art (insts_of k d)) l.0,
        contains-minus l.0 art (insts_of k d),
        contains-all_insts k l.0 fs,
      ),
    )

pub unchecked_iff :
    (forbidden : List Text) (art all : Option (Dict (List Text))) (fs : List CodeFile)
    → (unchecked_tasks forbidden art all fs ≡ []) ↔ IsWaiting forbidden (all_or all art) fs
unchecked_iff [] art all fs = (λ e k h. absurd (cc), λ h. unfold unchecked_tasks in refl)
unchecked_iff (x ∷ forbidden) art all fs =
    let found = first_forbidden (x ∷ forbidden) fs [] in
    let d = code_insts fs [] in
    let ids = sorted_set (keys found) in
    let loop = unchecked_nil_iff (all_or all art) d found ids in
    let member = λ (k : Text).
      contains-sorted_set k (keys found) ∙ contains-first_forbidden k (x ∷ forbidden) fs [] in
    unfold unchecked_tasks in
    (
      λ e k h r.
          (incomplete_iff (all_or all art) fs k).0
            (loop.0 e k (unfold keys in ground (arith, member k))),
      λ h. loop.1 λ k p.
          (incomplete_iff (all_or all art) fs k).1 (
            h k (unfold keys in ground (arith, member k))
              (unfold keys in ground (arith, member k))),
    )

-- The blocks implement exactly the instructions that the artifacts give, for each of their ids.
abbrev pub IsImplemented : Dict (List Text) → List CodeFile → Type 0
IsImplemented art fs =
    (k i : Text)
    → contains k (keys art) ≡ true
    → contains i (or_nil (lookup k art)) ≡ has_block k i fs

insts_missing_nil_iff : (id : Text) (is : List Text) → (insts_missing id is ≡ []) ↔ (is ≡ [])
unfolding insts_missing
insts_missing_nil_iff id [] = (λ e. refl, λ e. refl)
insts_missing_nil_iff id (i ∷ is) = (λ e. absurd (cc), λ e. absurd (cc))

inst_orphans_nil_iff :
    (id : Text) (places : Dict (FilePath × ℕ)) (is : List Text)
    → (inst_orphans id places is ≡ []) ↔ (is ≡ [])
unfolding inst_orphans
inst_orphans_nil_iff id places [] = (λ e. refl, λ e. refl)
inst_orphans_nil_iff id places (i ∷ is) = (λ e. absurd (cc), λ e. absurd (cc))

insts_of_id_iff :
    (d : Insts) (id : Text) (art : List Text)
    → (insts_of_id d id art ≡ []) ↔ ((i : Text) → contains i art ≡ contains i (insts_of id d))
unfolding insts_of_id
insts_of_id_iff d id art =
    let code = insts_of id d in
    let missing = sorted_set (minus art code) in
    let orphan = sorted_set (minus code art) in
    let split =
      append_nil_iff (insts_missing id missing) (inst_orphans id (or_nil (lookup id d)) orphan) in
    let lost = insts_missing_nil_iff id missing in
    let extra = inst_orphans_nil_iff id (or_nil (lookup id d)) orphan in
    (
      λ e i.
          same_members i art code ((minus-eq-nil_iff art code).0 (lost.0 (split.0 e).0) i)
            ((minus-eq-nil_iff code art).0 (extra.0 (split.0 e).1) i),
      λ h. split.1 (
        lost.1 ((minus-eq-nil_iff art code).1 λ i p. sym (h i) ∙ p),
        extra.1 ((minus-eq-nil_iff code art).1 λ i p. h i ∙ p),
      ),
    )

insts_loop_iff :
    (d : Insts) (art : Dict (List Text)) (ids : List Text)
    → (insts_loop d art ids ≡ []) ↔ (
        (k i : Text)
        → contains k ids ≡ true
        → contains i (or_nil (lookup k art)) ≡ contains i (insts_of k d))
unfolding insts_loop
insts_loop_iff d art [] = (λ e k i h. absurd (cc), λ h. refl)
insts_loop_iff d art (id ∷ ids) =
    let here = insts_of_id_iff d id (or_nil (lookup id art)) in
    let rest = insts_loop_iff d art ids in
    let split = append_nil_iff (insts_of_id d id (or_nil (lookup id art))) (insts_loop d art ids) in
    (
      λ e k i h. elim (text_dec k id) [
        | yes p ↦ rw p (here.0 (split.0 e).0 i)
        | no n ↦ rest.0 (split.0 e).1 k i (ground arith)
      ],
      λ h. split.1 (
        here.1 (λ i. h id i (contains_self id ids)),
        rest.1 (λ k i p. h k i (contains_later k id ids p)),
      ),
    )

pub instructions_iff :
    (art : Option (Dict (List Text))) (fs : List CodeFile)
    → (instructions art fs ≡ []) ↔ IsImplemented (or_nil art) fs
instructions_iff none fs = (λ e k i h. absurd (unfold keys in cc), λ h. unfold instructions in refl)
instructions_iff (some []) fs =
    (λ e k i h. absurd (unfold keys in cc), λ h. unfold instructions in refl)
instructions_iff (some (e ∷ art)) fs =
    let d = code_insts fs [] in
    let ids = keys (e ∷ art) in
    let loop = insts_loop_iff d (e ∷ art) (sorted_set ids) in
    unfold instructions in
    (
      λ h k i p. loop.0 h k i (contains-sorted_set k ids ∙ p) ∙ contains-all_insts k i fs,
      λ h.
          loop.1
            λ k i p. h k i (sym (contains-sorted_set k ids) ∙ p) ∙ sym (contains-all_insts k i fs),
    )
