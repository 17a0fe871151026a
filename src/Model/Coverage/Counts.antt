-- ===== src/Model/Coverage/Counts.antt =====
-- internal/model/coverage.go: what the summary counts as assessments come in.
use cirewind.Base.{
  ℕ, suc, ◌+◌, ◌≤◌, ◌<◌, ◌≡◌, sym, ap, ◌∙◌, Bool, true, false, ◌&&◌, not, none, some, Option, List,
  [], ◌∷◌, arith, any, count_of, length, ok, ◌>>=◌, ◌>>◌, passes, within, refuse_if, Checked, ok->>,
  ok->>=, passes->>, passes-refuse_if, ok-injective, passes-within,
}
use mathlib.Core.Path.{subst}
use cirewind.Model.Vocabulary.{
  CoverageStatus, expected, collected, not_applicable, gap, is_gap, status_valid,
}
use cirewind.Model.Ids.{validate_coverage_assessment_id, validate_coverage_unit_id}
use cirewind.Model.Coverage.{
  CoverageUnit, CoverageAssessment, validate_assessment, exceeds, validate_gap_state,
  validate_sorted_evidence_ids,
}
use cirewind.Model.Coverage.Reconcile.{
  Assessed, uint64, inc, has_unit_id, has_assessment_id, assesses, is_material_gap, find_unit,
  known_unit, enter, add_assessment, add_assessments,
}
use cirewind.Model.Coverage.Missing.{
  missing, is_distinct, missing-enter, find_unit-known, any-find_unit,
}

abbrev pub has_status : CoverageStatus → CoverageAssessment → Bool
has_status expected a = elim a.status [ expected ↦ true | _ ↦ false ]
has_status collected a = elim a.status [ collected ↦ true | _ ↦ false ]
has_status not_applicable a = elim a.status [ not_applicable ↦ true | _ ↦ false ]
has_status gap a = elim a.status [ gap ↦ true | _ ↦ false ]
has_status (CoverageStatus.other v) a = false

-- A gap that matters, of a unit that a negative finding requires.
abbrev pub is_blocking : List CoverageUnit → CoverageAssessment → Bool
is_blocking units a =
    has_status gap a && any (λ u. has_unit_id a.unit_id u && is_material_gap u a.gap) units

pub record Inv (units : List CoverageUnit) (t : Assessed) : Type 0 where
  pub split : missing t.seen units + length t.seen ≡ length units
  pub known : t.summary.expected ≡ length units
  pub still_open : t.summary.open_units ≡ count_of (has_status expected) t.seen
  pub collects : t.summary.collected ≡ count_of (has_status collected) t.seen
  pub skips : t.summary.not_applicable ≡ count_of (has_status not_applicable) t.seen
  pub gapped : t.summary.gaps ≡ count_of (has_status gap) t.seen
  pub blocked : t.summary.material_gaps ≡ count_of (is_blocking units) t.seen
  pub all_valid : count_of (λ a. status_valid a.status) t.seen ≡ length t.seen

pub inc_small : (n m : ℕ) → n < m → m < uint64 → inc n ≡ suc n
inc_small n m h k = omega arith

pub count_of_le : {A : Type 0} (p : A → Bool) (xs : List A) → count_of p xs ≤ length xs
count_of_le p [] = omega arith
count_of_le p (x ∷ xs) = ground (arith, count_of_le p xs)

-- What an assessment that is let in satisfies.
pub record IsEntered (units : List CoverageUnit) (a : CoverageAssessment) (t u : Assessed)
    : Type 0 where
  pub unit : CoverageUnit
  pub found : find_unit a.unit_id units ≡ some unit
  pub fresh : any (assesses a.unit_id) t.seen ≡ false
  pub valid : status_valid a.status ≡ true
  pub result : enter a unit t ≡ u

status-validate_assessment :
    (a : CoverageAssessment) → passes (validate_assessment a) ≡ true → status_valid a.status ≡ true
unfolding validate_assessment
status-validate_assessment a h =
    let ids = validate_coverage_assessment_id a.id >> validate_coverage_unit_id a.unit_id in
    let status = refuse_if (not (status_valid a.status)) "invalid coverage status" in
    let counts =
      refuse_if (exceeds a.observed_count a.expected_count && not (is_gap a.status))
        "coverage observed count exceeds expected count" in
    let detail = validate_gap_state (is_gap a.status) a.gap in
    let p =
      passes->> (ids >> status >> counts >> detail) (validate_sorted_evidence_ids a.evidence_ids)
        h in
    let q = passes->> (ids >> status >> counts) detail p.0 in
    let r = passes->> (ids >> status) counts q.0 in
    ground (
      arith,
      passes-refuse_if (not (status_valid a.status)) "invalid coverage status"
          (passes->> ids status r.0).1,
    )

abbrev repeat_checks : CoverageAssessment → Assessed → Checked
repeat_checks a t =
    refuse_if (any (assesses a.unit_id) t.seen) "coverage unit has multiple assessments"
    >> refuse_if (any (has_assessment_id a.id) t.seen) "coverage assessment counted twice"

known_unit-ok :
    (found : Option CoverageUnit) (unit : CoverageUnit)
    → known_unit found ≡ ok unit
    → found ≡ some unit
known_unit-ok none unit h = cc
known_unit-ok (some v) unit h = ap some (ok-injective v unit h)

IsEntered-add_assessment :
    (units : List CoverageUnit) (a : CoverageAssessment) (t u : Assessed)
    → add_assessment units a t ≡ ok u
    → IsEntered units a t u
unfolding add_assessment
IsEntered-add_assessment units a t u h =
    let p =
      ok->> (within "coverage assessment" (validate_assessment a))
        (known_unit (find_unit a.unit_id units) >>= λ unit.
          repeat_checks a t >> ok (enter a unit t))
        u h in
    let q =
      ok->>= (known_unit (find_unit a.unit_id units))
        (λ unit. repeat_checks a t >> ok (enter a unit t)) u p.1 in
    let r = ok->> (repeat_checks a t) (ok (enter a q.0 t)) u q.1.1 in
    record {
      unit = q.0;
      found = known_unit-ok (find_unit a.unit_id units) q.0 q.1.0;
      fresh =
          passes-refuse_if (any (assesses a.unit_id) t.seen)
            "coverage unit has multiple assessments"
            (passes->>
              (refuse_if (any (assesses a.unit_id) t.seen) "coverage unit has multiple assessments")
              (refuse_if (any (has_assessment_id a.id) t.seen) "coverage assessment counted twice")
              r.0).0;
      valid =
          status-validate_assessment a
            (sym (passes-within "coverage assessment" (validate_assessment a)) ∙ p.0);
      result = ok-injective (enter a q.0 t) u r.1;
    }

module _ (units : List CoverageUnit) (d : is_distinct units ≡ true)
    (small : length units < uint64) where
  -- Where a count that has come so far stays below the number of units.
  room :
      (t : Assessed) (a : CoverageAssessment) (unit : CoverageUnit) (p : CoverageAssessment → Bool)
      → Inv units t
      → find_unit a.unit_id units ≡ some unit
      → any (assesses a.unit_id) t.seen ≡ false
      → inc (count_of p t.seen) ≡ suc (count_of p t.seen)
  room t a unit p i e f =
      inc_small (count_of p t.seen) (length units)
        (omega (
          arith,
          i.split,
          count_of_le p t.seen,
          missing-enter a t.seen units d (find_unit-known a.unit_id units unit e) f,
        ))
        small

  Inv-enter :
      (t : Assessed) (a : CoverageAssessment) (unit : CoverageUnit)
      → Inv units t
      → find_unit a.unit_id units ≡ some unit
      → any (assesses a.unit_id) t.seen ≡ false
      → status_valid a.status ≡ true
      → Inv units (enter a unit t)
  Inv-enter t a unit i e f v = record {
    split =
        omega (
          arith,
          i.split,
          missing-enter a t.seen units d (find_unit-known a.unit_id units unit e) f,
        );
    known = ground (arith, i.known);
    still_open = ground (arith, i.still_open, room t a unit (has_status expected) i e f);
    collects = ground (arith, i.collects, room t a unit (has_status collected) i e f);
    skips = ground (arith, i.skips, room t a unit (has_status not_applicable) i e f);
    gapped = ground (arith, i.gapped, room t a unit (has_status gap) i e f);
    blocked = ground (
      arith,
      i.blocked,
      room t a unit (is_blocking units) i e f,
      any-find_unit (λ u. is_material_gap u a.gap) a.unit_id units unit d e,
    );
    all_valid = ground (arith, i.all_valid);
  }

-- Each assessment in turn.
pub record IsCounted (units : List CoverageUnit) (xs : List CoverageAssessment) (t u : Assessed)
    : Type 0 where
  pub inv : Inv units u
  pub counts :
      (p : CoverageAssessment → Bool) → count_of p u.seen ≡ count_of p t.seen + count_of p xs

pub IsCounted-add_assessments :
    (units : List CoverageUnit) (xs : List CoverageAssessment) (t u : Assessed)
    → is_distinct units ≡ true
    → length units < uint64
    → Inv units t
    → add_assessments units xs t ≡ ok u
    → IsCounted units xs t u
unfolding add_assessments
IsCounted-add_assessments units [] t u d small i h =
    let e = ok-injective t u h in
    record {
      inv = subst (Inv units) e i;
      counts = λ p. ground (arith, ap (λ v. count_of p v.seen) e);
    }
IsCounted-add_assessments units (a ∷ xs) t u d small i h =
    let q = ok->>= (add_assessment units a t) (add_assessments units xs) u h in
    let s = IsEntered-add_assessment units a t q.0 q.1.0 in
    let j : Inv units q.0 =
      subst (Inv units) s.result (Inv-enter units d small t a s.unit i s.found s.fresh s.valid) in
    let rest = IsCounted-add_assessments units xs q.0 u d small j q.1.1 in
    record {
      inv = rest.inv;
      counts = λ p. ground (arith, rest.counts p, ap (λ v. count_of p v.seen) s.result);
    }
