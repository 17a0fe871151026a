-- ===== src/Model/Finding/Closure.antt =====
-- internal/model/coverage.go: a finding without a match rests on settled coverage.
use mathlib.Core.Path.{subst}
use cirewind.Base.{
  String, ◌+◌, ◌<◌, ◌≡◌, refl, sym, ap, ◌∙◌, Bool, true, false, ◌&&◌, not, List, [], ◌∷◌, arith,
  ltb, any, count_of, length, All, All-map, Text, Result, ok, err, ◌>>=◌, ◌>>◌, ok->>, ok->>=,
  passes->>, passes-refuse_if, passes, refuse_if, within, check_each,
}
use cirewind.Model.Vocabulary.{collected, not_applicable, gap, is_terminal}
use cirewind.Model.States.{no_match_confirmed}
use cirewind.Model.Coverage.{CoverageUnit, CoverageAssessment, validate_unit, validate_assessment}
use cirewind.Model.Coverage.Reconcile.{
  CoverageSummary, uint64, has_unit_id, has_assessment_id, is_material_gap, reconcile_coverage,
  allows_no_match_confirmed, is_closed_summary,
}
use cirewind.Model.Coverage.Missing.{is_distinct, IsTable}
use cirewind.Model.Coverage.Counts.{has_status, is_blocking, count_of_le}
use cirewind.Model.Coverage.Opened.{IsReconciled, any-count_of}
use cirewind.Model.Coverage.Closed.{reconcile_coverage_lem}
use cirewind.Model.Subjects.{items}
use cirewind.Model.Finding.{
  Finding, table_units, table_assessments, check_gap, select_coverage, check_closure,
  validate_finding, validate_finding_coverage,
}
use cirewind.Model.Finding.Support.{IsSelected, IsSelected-select_coverage}

terminal_counts :
    (xs : List CoverageAssessment)
    → count_of (λ a. is_terminal a.status) xs
      ≡ count_of (has_status collected) xs
        + count_of (has_status not_applicable) xs
        + count_of (has_status gap) xs
unfolding is_terminal
terminal_counts [] = refl
terminal_counts (a ∷ xs) = ground (arith, terminal_counts xs)

all_but :
    (p q : CoverageAssessment → Bool) (xs : List CoverageAssessment)
    → count_of p xs ≡ length xs
    → count_of q xs ≡ 0
    → count_of (λ a. p a && not (q a)) xs ≡ length xs
all_but p q [] h k = refl
all_but p q (a ∷ xs) h k = ground (arith, count_of_le p xs, all_but p q xs)

none_of :
    (q r : CoverageAssessment → Bool) (xs : List CoverageAssessment)
    → All (λ a. q a ≡ true → r a ≡ true) xs
    → count_of r xs ≡ 0
    → count_of q xs ≡ 0
none_of q r [] h k = refl
none_of q r (a ∷ xs) h k = ground (arith, h.0, none_of q r xs h.1)

-- Terminal, and no material gap of a unit that a negative finding requires.
abbrev pub is_settled_by : List CoverageUnit → CoverageAssessment → Bool
is_settled_by units a = is_terminal a.status && not (is_blocking units a)

allowed :
    (s : CoverageSummary)
    → allows_no_match_confirmed s ≡ true
    → (s.open_units ≡ 0) × (s.material_gaps ≡ 0)
unfolding allows_no_match_confirmed is_closed_summary
allowed s h = (ground arith, ground arith)

settled_selection :
    (units : List CoverageUnit) (table : List CoverageAssessment) (ids : List Text)
    (us : List CoverageUnit) (xs : List CoverageAssessment) (s : CoverageSummary)
    → IsSelected units table ids us xs
    → IsReconciled us xs s
    → allows_no_match_confirmed s ≡ true
    → All (λ id. any (λ a. has_assessment_id id a && is_settled_by units a) table ≡ true) ids
settled_selection units table ids us xs s i r h =
    let z = allowed s h in
    i.represents (is_settled_by units) (
      all_but (λ a. is_terminal a.status) (is_blocking units) xs
        (omega (
          arith,
          terminal_counts xs,
          r.all_units,
          r.adds_up,
          r.collects,
          r.skips,
          r.gapped,
          z.0,
          i.units_length,
          i.length_same,
        ))
        (none_of (is_blocking units) (is_blocking us) xs i.blocks (omega (arith, r.blocked, z.1))))

within-ok : {A : Type 0} (label : String) (r : Result A) (a : A) → within label r ≡ ok a → r ≡ ok a
within-ok label (err message) a h = cc
within-ok label (ok b) a h = h

closure-ok :
    (us : List CoverageUnit) (xs : List CoverageAssessment)
    → length us < uint64
    → check_closure no_match_confirmed us xs ≡ ok tt
    → (s : CoverageSummary) × (IsReconciled us xs s × (allows_no_match_confirmed s ≡ true))
closure-ok us xs small h =
    let message : String = "NO_MATCH_CONFIRMED coverage contains a material gap" in
    let p =
      ok->>= (within "NO_MATCH_CONFIRMED coverage is not closed" (reconcile_coverage us xs true))
        (λ s. refuse_if (not (allows_no_match_confirmed s)) message) tt h in
    (
      p.0,
      (
        (reconcile_coverage_lem us xs true p.0 small (
            within-ok "NO_MATCH_CONFIRMED coverage is not closed" (reconcile_coverage us xs true)
              p.0 p.1.0)).0,
        ground (
          arith,
          passes-refuse_if (not (allows_no_match_confirmed p.0)) message (ap passes p.1.1),
        ),
      ),
    )

table_units-step :
    (unit : CoverageUnit) (rest seen table : List CoverageUnit)
    → table_units (unit ∷ rest) seen ≡ ok table
    → (any (has_unit_id unit.id) seen ≡ false) × (table_units rest (unit ∷ seen) ≡ ok table)
unfolding table_units
table_units-step unit rest seen table h =
    let repeated = refuse_if (any (has_unit_id unit.id) seen) "duplicate coverage unit" in
    let a = ok->> (validate_unit unit >> repeated) (table_units rest (unit ∷ seen)) table h in
    (
      passes-refuse_if (any (has_unit_id unit.id) seen) "duplicate coverage unit"
          (passes->> (validate_unit unit) repeated a.0).1,
      a.1,
    )

IsTable-table_units :
    (units seen table : List CoverageUnit)
    → is_distinct seen ≡ true
    → table_units units seen ≡ ok table
    → IsTable units seen table
unfolding table_units
IsTable-table_units [] seen table d h = record {
  distinct = cc;
  sized = ground arith;
  counts = λ p. ground arith;
}
IsTable-table_units (unit ∷ rest) seen table d h =
    let s = table_units-step unit rest seen table h in
    let i = IsTable-table_units rest (unit ∷ seen) table (ground arith) s.1 in
    record {
      distinct = i.distinct;
      sized = ground (arith, i.sized);
      counts = λ p. ground (arith, i.counts p);
    }

count_of-table_assessments :
    (p : CoverageAssessment → Bool) (xs seen table : List CoverageAssessment)
    → table_assessments xs seen ≡ ok table
    → count_of p table ≡ count_of p seen + count_of p xs
unfolding table_assessments
count_of-table_assessments p [] seen table h = ground arith
count_of-table_assessments p (a ∷ rest) seen table h =
    let b =
      ok->>
        (validate_assessment a
          >> refuse_if (any (has_assessment_id a.id) seen) "duplicate coverage assessment")
        (table_assessments rest (a ∷ seen)) table h in
    ground (arith, count_of-table_assessments p rest (a ∷ seen) table b.1)

any-ext :
    (p q : CoverageAssessment → Bool) (xs : List CoverageAssessment)
    → ((a : CoverageAssessment) → p a ≡ q a)
    → any p xs ≡ any q xs
any-ext p q [] h = refl
any-ext p q (a ∷ xs) h = ground (arith, h a, any-ext p q xs h)

any-table_assessments :
    (p : CoverageAssessment → Bool) (xs table : List CoverageAssessment)
    → table_assessments xs [] ≡ ok table
    → any p table ≡ any p xs
any-table_assessments p xs table h =
    any-count_of p table
    ∙ ap (ltb 0) (omega (arith, count_of-table_assessments p xs [] table h))
    ∙ sym (any-count_of p xs)

is_settled_by-table :
    (units table : List CoverageUnit) (a : CoverageAssessment)
    → IsTable units [] table
    → is_settled_by table a ≡ is_settled_by units a
is_settled_by-table units table a i =
    let p : CoverageUnit → Bool = λ u. has_unit_id a.unit_id u && is_material_gap u a.gap in
    let e : any p table ≡ any p units =
      any-count_of p table ∙ ap (ltb 0) (omega (arith, i.counts p)) ∙ sym (any-count_of p units) in
    ap (λ b. is_terminal a.status && not (has_status gap a && b)) e

-- What a finding demands of the coverage that it refers to.
abbrev pub IsSettled : List CoverageUnit → List CoverageAssessment → List Text → Type 0
IsSettled units assessments ids =
    All (λ id. any (λ a. has_assessment_id id a && is_settled_by units a) assessments ≡ true) ids

IsSettled-tables :
    (units unit_table : List CoverageUnit) (assessments table : List CoverageAssessment)
    (ids : List Text)
    → IsTable units [] unit_table
    → table_assessments assessments [] ≡ ok table
    → All (λ id. any (λ a. has_assessment_id id a && is_settled_by unit_table a) table ≡ true) ids
    → IsSettled units assessments ids
IsSettled-tables units unit_table assessments table ids i t h =
    All-map (λ id. any (λ a. has_assessment_id id a && is_settled_by unit_table a) table ≡ true)
      (λ id. any (λ a. has_assessment_id id a && is_settled_by units a) assessments ≡ true)
      (λ id k.
        sym (
          any-table_assessments (λ a. has_assessment_id id a && is_settled_by units a) assessments
            table t)
        ∙ any-ext (λ a. has_assessment_id id a && is_settled_by units a)
            (λ a. has_assessment_id id a && is_settled_by unit_table a) table
            (λ a.
              ap (λ b. has_assessment_id id a && b)
                (sym (is_settled_by-table units unit_table a i)))
        ∙ k)
      ids h

-- When `ValidateFindingCoverage` accepts a finding in the state NO_MATCH_CONFIRMED, with fewer than
-- 2^64 coverage references: each reference names one of the assessments whose examination has ended
-- (collected, not applicable, or a gap) and that is no material gap of a unit required for a
-- negative finding.
pub finding_without_match-IsSettled :
    (f : Finding) (units : List CoverageUnit) (assessments : List CoverageAssessment)
    → f.state ≡ no_match_confirmed
    → length (items f.collection_coverage) < uint64
    → validate_finding_coverage f units assessments ≡ ok tt
    → IsSettled units assessments (items f.collection_coverage)
unfolding validate_finding_coverage
finding_without_match-IsSettled f units assessments e small h =
    let ids = items f.collection_coverage in
    let a =
      ok->> (validate_finding f)
        (table_units units [] >>= λ unit_table. table_assessments assessments [] >>= λ table.
          check_each (check_gap table) (items f.evidence_gaps)
          >> (select_coverage unit_table table ids >>= λ selected.
              check_closure f.state selected.0 selected.1))
        tt h in
    let b =
      ok->>= (table_units units [])
        (λ unit_table. table_assessments assessments [] >>= λ table.
          check_each (check_gap table) (items f.evidence_gaps)
          >> (select_coverage unit_table table ids >>= λ selected.
              check_closure f.state selected.0 selected.1))
        tt a.1 in
    let c =
      ok->>= (table_assessments assessments [])
        (λ table.
          check_each (check_gap table) (items f.evidence_gaps)
          >> (select_coverage b.0 table ids >>= λ selected.
              check_closure f.state selected.0 selected.1))
        tt b.1.1 in
    let d =
      ok->> (check_each (check_gap c.0) (items f.evidence_gaps))
        (select_coverage b.0 c.0 ids >>= λ selected. check_closure f.state selected.0 selected.1) tt
        c.1.1 in
    let g =
      ok->>= (select_coverage b.0 c.0 ids) (λ selected. check_closure f.state selected.0 selected.1)
        tt d.1 in
    let i = IsTable-table_units units [] b.0 refl b.1.0 in
    let sel = IsSelected-select_coverage b.0 c.0 ids g.0.0 g.0.1 i.distinct g.1.0 in
    let k =
      closure-ok g.0.0 g.0.1 (omega (arith, sel.units_length, small))
        (subst (λ st. check_closure st g.0.0 g.0.1 ≡ ok tt) e g.1.1) in
    IsSettled-tables units b.0 assessments c.0 ids i c.1.0
      (settled_selection b.0 c.0 ids g.0.0 g.0.1 k.0 sel k.1.0 k.1.1)
