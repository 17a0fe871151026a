-- ===== src/Model/Coverage/Canonical.antt =====
-- internal/model/coverage.go: sorting evidence ids gives what validation accepts.
use cirewind.Base.{
  ◌≡◌, refl, ap, ◌∙◌, Bool, true, false, ◌&&◌, not, none, some, Option, List, [], ◌∷◌, arith, any,
  All, Text, Checked, String, passes, passes->>, ◌>>◌, refuse_if, passes-refuse_if,
}
use cirewind.Base.Order.{text_order}
use cirewind.Base.Unique.{
  elem, IsStrict, IsStrict-ext, sorted_unique, sorted_unique-IsStrict, elem-sorted_unique,
  any-same_members, All_above,
}
use cirewind.Model.Ids.{validate_evidence_id}
use cirewind.Model.Coverage.{
  validate_ascending_after, validate_sorted_evidence_ids, sort_evidence_ids,
}

abbrev is_accepted : (Text → Checked) → Text → Bool
is_accepted check id = passes (check id)

abbrev pub all_accepted : (Text → Checked) → List Text → Bool
all_accepted check ids = not (any (λ id. not (is_accepted check id)) ids)

abbrev IsAbove : Option Text → List Text → Type 0
IsAbove none ids = Unit
IsAbove (some p) ids = All (λ id. text_order.less p id ≡ true) ids

and_true : (b : Bool) → (b && true) ≡ b
and_true b = ground arith

module _ (check : Text → Checked) (message : String) where
  accepts_ascending :
      (previous : Option Text) (ids : List Text)
      → IsStrict ids
      → IsAbove previous ids
      → passes (validate_ascending_after check message previous ids) ≡ all_accepted check ids
  unfolding validate_ascending_after
  accepts_ascending previous [] h a = refl
  accepts_ascending none (id ∷ ids) h a = ground (arith, accepts_ascending (some id) ids h.1 h.0)
  accepts_ascending (some p) (id ∷ ids) h a =
      ground (arith, accepts_ascending (some id) ids h.1 h.0, a.0)

  IsStrict-accepted :
      (previous : Option Text) (ids : List Text)
      → passes (validate_ascending_after check message previous ids) ≡ true
      → IsStrict ids × IsAbove previous ids
  unfolding validate_ascending_after
  IsStrict-accepted none [] h = (tt, tt)
  IsStrict-accepted (some p) [] h = (tt, tt)
  IsStrict-accepted none (id ∷ ids) h =
      let q =
        passes->> (check id >> refuse_if false message)
          (validate_ascending_after check message (some id) ids) h in
      let r = IsStrict-accepted (some id) ids q.1 in ((r.1, r.0), tt)
  IsStrict-accepted (some p) (id ∷ ids) h =
      let less = text_order.less p id in
      let q =
        passes->> (check id >> refuse_if (not less) message)
          (validate_ascending_after check message (some id) ids) h in
      let r = IsStrict-accepted (some id) ids q.1 in
      let l : less ≡ true = ground (
        arith,
        passes-refuse_if (not less) message
            (passes->> (check id) (refuse_if (not less) message) q.0).1,
      ) in
      ((r.1, r.0), (l, All_above p id ids l r.1))

-- Whatever its argument holds, `SortEvidenceIDs` gives a list that validation accepts exactly when
-- each id of the argument is well-formed.
pub sort_evidence_ids_lem :
    (ids : List Text)
    → passes (validate_sorted_evidence_ids (sort_evidence_ids ids))
      ≡ all_accepted validate_evidence_id ids
unfolding validate_sorted_evidence_ids sort_evidence_ids
sort_evidence_ids_lem ids =
    let keep_all : Text → Bool = λ id. false in
    accepts_ascending validate_evidence_id
      "evidence IDs must be strictly bytewise sorted and unique" none (sorted_unique keep_all ids)
      (sorted_unique-IsStrict keep_all ids) tt
    ∙ ap not (
        any-same_members (λ id. not (is_accepted validate_evidence_id id))
          (sorted_unique keep_all ids) ids
          (λ k. elem-sorted_unique keep_all k ids ∙ and_true (elem k ids)))

-- A list that validation accepts is the one that `SortEvidenceIDs` gives of it.
pub sort_evidence_ids_fixed :
    (ids : List Text)
    → passes (validate_sorted_evidence_ids ids) ≡ true
    → sort_evidence_ids ids ≡ ids
unfolding validate_sorted_evidence_ids sort_evidence_ids
sort_evidence_ids_fixed ids h =
    let keep_all : Text → Bool = λ id. false in
    IsStrict-ext (sorted_unique keep_all ids) ids (sorted_unique-IsStrict keep_all ids)
      (IsStrict-accepted validate_evidence_id
        "evidence IDs must be strictly bytewise sorted and unique" none ids h).0
      (λ k. elem-sorted_unique keep_all k ids ∙ and_true (elem k ids))
