-- ===== src/Model/Coverage/Reconcile.antt =====
-- internal/model/coverage.go: `ReconcileCoverage`. The maps are lists, newest entry first; the counts
-- are `uint64`. The summary that stands beside an error is not kept: no caller reads it.
use cirewind.Base.{
  ℕ, ◌+◌, ◌%◌, ◌^◌, Bool, false, ◌&&◌, not, Option, none, some, List, [], ◌∷◌, if◌then◌else◌, ◌==◌,
  length, any, Text, same_text, Result, ok, err, ◌>>◌, ◌>>=◌, refuse_if, within,
}
use cirewind.Model.Vocabulary.{CoverageStatus, expected, collected, not_applicable, gap}
use cirewind.Model.Coverage.{
  CoverageUnit, CoverageAssessment, CoverageGapDetail, validate_unit, validate_assessment,
}

pub record CoverageSummary : Type 0 where
  pub expected : ℕ
  pub collected : ℕ
  pub not_applicable : ℕ
  pub gaps : ℕ
  pub open_units : ℕ
  pub material_gaps : ℕ

abbrev pub uint64 : ℕ
uint64 = 2 ^ 64

abbrev pub inc : ℕ → ℕ
inc n = (n + 1) % uint64

unfoldable pub is_closed_summary : CoverageSummary → Bool
is_closed_summary s =
    s.open_units == 0 && s.expected == (s.collected + s.not_applicable + s.gaps) % uint64

unfoldable pub allows_no_match_confirmed : CoverageSummary → Bool
unfolding is_closed_summary
allows_no_match_confirmed s = is_closed_summary s && s.material_gaps == 0

abbrev pub has_unit_id : Text → CoverageUnit → Bool
has_unit_id id u = same_text u.id id

unfoldable pub add_units : List CoverageUnit → List CoverageUnit → Result (List CoverageUnit)
unfolding validate_unit same_text
add_units [] seen = ok seen
add_units (unit ∷ rest) seen =
    within "coverage unit" (validate_unit unit)
    >> refuse_if (any (has_unit_id unit.id) seen) "coverage unit counted twice"
    >> add_units rest (unit ∷ seen)

unfoldable pub find_unit : Text → List CoverageUnit → Option CoverageUnit
unfolding same_text
find_unit id [] = none
find_unit id (u ∷ rest) =
    let found = find_unit id rest in if has_unit_id id u then some u else found

-- `unit.RequiredForNegative && assessment.Gap != nil && assessment.Gap.Material`
abbrev pub is_material_gap : CoverageUnit → Option CoverageGapDetail → Bool
is_material_gap unit none = false
is_material_gap unit (some detail) = unit.required_for_negative && detail.material

-- The `switch` on the status.
abbrev pub count_status :
    CoverageUnit → CoverageStatus → Option CoverageGapDetail → CoverageSummary → CoverageSummary
count_status unit expected detail s = record s { open_units = inc s.open_units }
count_status unit collected detail s = record s { collected = inc s.collected }
count_status unit not_applicable detail s = record s { not_applicable = inc s.not_applicable }
count_status unit gap detail s = record s {
  gaps = inc s.gaps;
  material_gaps = if is_material_gap unit detail then inc s.material_gaps else s.material_gaps;
}
count_status unit (CoverageStatus.other v) detail s = s

pub record Assessed : Type 0 where
  pub seen : List CoverageAssessment
  pub summary : CoverageSummary

abbrev pub assesses : Text → CoverageAssessment → Bool
assesses id a = same_text a.unit_id id

abbrev pub has_assessment_id : Text → CoverageAssessment → Bool
has_assessment_id id a = same_text a.id id

abbrev pub known_unit : Option CoverageUnit → Result CoverageUnit
known_unit none = err "assessment references unknown coverage unit"
known_unit (some unit) = ok unit

abbrev pub enter : CoverageAssessment → CoverageUnit → Assessed → Assessed
enter a unit t = record { seen = a ∷ t.seen; summary = count_status unit a.status a.gap t.summary }

unfoldable pub add_assessment : List CoverageUnit → CoverageAssessment → Assessed → Result Assessed
unfolding validate_assessment find_unit same_text
add_assessment units a t =
    within "coverage assessment" (validate_assessment a)
    >> (known_unit (find_unit a.unit_id units) >>= λ unit.
        refuse_if (any (assesses a.unit_id) t.seen) "coverage unit has multiple assessments"
        >> refuse_if (any (has_assessment_id a.id) t.seen) "coverage assessment counted twice"
        >> ok (enter a unit t))

unfoldable pub add_assessments :
    List CoverageUnit → List CoverageAssessment → Assessed → Result Assessed
unfolding add_assessment
add_assessments units [] t = ok t
add_assessments units (a ∷ rest) t = add_assessment units a t >>= add_assessments units rest

-- A unit that no assessment is about is open.
unfoldable pub count_unassessed :
    List CoverageAssessment → List CoverageUnit → CoverageSummary → CoverageSummary
unfolding same_text
count_unassessed seen [] s = s
count_unassessed seen (u ∷ rest) s =
    count_unassessed seen rest
      (if any (assesses u.id) seen then s else record s { open_units = inc s.open_units })

abbrev pub sum_of : CoverageSummary → ℕ
sum_of s = (s.collected + s.not_applicable + s.gaps + s.open_units) % uint64

abbrev pub check_summary : Bool → CoverageSummary → Result CoverageSummary
check_summary require_terminal s =
    refuse_if (require_terminal && not (s.open_units == 0)) "coverage has open expected units"
    >> refuse_if (not (s.expected == sum_of s)) "coverage reconciliation invariant failed"
    >> ok s

abbrev pub start_summary : ℕ → CoverageSummary
start_summary n = record {
  expected = n % uint64;
  collected = 0;
  not_applicable = 0;
  gaps = 0;
  open_units = 0;
  material_gaps = 0;
}

unfoldable pub reconcile_coverage :
    List CoverageUnit → List CoverageAssessment → Bool → Result CoverageSummary
unfolding add_units add_assessments count_unassessed
reconcile_coverage units assessments require_terminal = do
  table ← add_units units []
  t ←
      add_assessments table assessments
        (record { seen = []; summary = start_summary (length table) })
  check_summary require_terminal (count_unassessed t.seen table t.summary)
