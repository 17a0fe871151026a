-- ===== src/Model/Coverage/Closed.antt =====
-- internal/model/coverage.go: what a reconciled summary says of the units and their assessments.
use mathlib.Core.Path.{subst}
use cirewind.Base.{
  ◌<◌, ◌≡◌, refl, sym, ap, ◌∙◌, Bool, true, ◌&&◌, not, List, [], arith, ◌==◌, any, count_of, length,
  Result, ok, ◌>>=◌, ◌>>◌, refuse_if, ok->>, ok->>=, passes->>, passes-refuse_if, ok-injective, ltb,
}
use cirewind.Model.Vocabulary.{expected, collected, not_applicable, gap, is_terminal}
use cirewind.Model.Coverage.{CoverageUnit, CoverageAssessment}
use cirewind.Model.Coverage.Reconcile.{
  CoverageSummary, Assessed, uint64, assesses, is_material_gap, has_unit_id, add_units,
  add_assessments, count_unassessed, sum_of, check_summary, start_summary, reconcile_coverage,
}
use cirewind.Model.Coverage.Missing.{missing, lacks, IsTable, IsTable-add_units, missing-none}
use cirewind.Model.Coverage.Counts.{
  Inv, IsCounted, IsCounted-add_assessments, has_status, is_blocking, count_of_le,
}
use cirewind.Model.Coverage.Opened.{
  IsReconciled, IsOpened, is_unsettled, any-count_of, count_of-ext, IsOpened-count_unassessed,
  not_terminal, four_counts,
}

-- What the code has counted, in terms of the table and the assessments it has seen.
module _ (units table : List CoverageUnit) (assessments : List CoverageAssessment) (t : Assessed)
    (i : IsTable units [] table)
    (c : IsCounted table assessments
      (record { seen = []; summary = start_summary (length table) })
      t)
    (small : length units < uint64) where
  abbrev final : CoverageSummary
  final = count_unassessed t.seen table t.summary

  opens : IsOpened t.seen table t.summary final
  opens = IsOpened-count_unassessed t.seen table t.summary (
      omega (
        arith,
        c.inv.split,
        c.inv.still_open,
        count_of_le (has_status expected) t.seen,
        i.sized,
        small,
      ))

  seen_counts : (p : CoverageAssessment → Bool) → count_of p t.seen ≡ count_of p assessments
  seen_counts p = omega (arith, c.counts p)

  seen_any : (p : CoverageAssessment → Bool) → any p t.seen ≡ any p assessments
  seen_any p = any-count_of p t.seen ∙ ap (ltb 0) (seen_counts p) ∙ sym (any-count_of p assessments)

  table_any : (p : CoverageUnit → Bool) → any p table ≡ any p units
  table_any p =
      any-count_of p table ∙ ap (ltb 0) (omega (arith, i.counts p)) ∙ sym (any-count_of p units)

  is_blocking-table : (a : CoverageAssessment) → is_blocking table a ≡ is_blocking units a
  is_blocking-table a =
      ap (λ b. has_status gap a && b)
        (table_any (λ u. has_unit_id a.unit_id u && is_material_gap u a.gap))

  settles : final.open_units ≡ 0 → count_of (is_unsettled assessments) units ≡ 0
  settles h =
      let m : missing t.seen table ≡ 0 = omega (arith, opens.opened, h) in
      let o : count_of (has_status expected) t.seen ≡ 0 =
        omega (arith, opens.opened, h, c.inv.still_open) in
      omega (
        arith,
        m,
        i.counts (is_unsettled assessments),
        count_of-ext (is_unsettled assessments) (lacks t.seen) table (λ u. ap not (
            sym (seen_any (λ a. assesses u.id a && is_terminal a.status))
            ∙ not_terminal t.seen c.inv.all_valid o (assesses u.id))),
      )

  IsReconciled-final : IsReconciled units assessments final
  IsReconciled-final = record {
    all_units = omega (arith, opens.same_expected, c.inv.known, i.sized);
    collects = opens.same_collected ∙ c.inv.collects ∙ seen_counts (has_status collected);
    skips = opens.same_skipped ∙ c.inv.skips ∙ seen_counts (has_status not_applicable);
    gapped = opens.same_gaps ∙ c.inv.gapped ∙ seen_counts (has_status gap);
    blocked =
        opens.same_blocked
        ∙ c.inv.blocked
        ∙ seen_counts (is_blocking table)
        ∙ count_of-ext (is_blocking table) (is_blocking units) assessments is_blocking-table;
    adds_up = omega (
      arith,
      opens.opened,
      opens.same_expected,
      opens.same_collected,
      opens.same_skipped,
      opens.same_gaps,
      c.inv.known,
      c.inv.still_open,
      c.inv.collects,
      c.inv.skips,
      c.inv.gapped,
      c.inv.split,
      four_counts t.seen c.inv.all_valid,
    );
    settled = settles;
  }

abbrev pub nothing_seen : List CoverageUnit → Assessed
nothing_seen table = record { seen = []; summary = start_summary (length table) }

Inv-nothing_seen :
    (units table : List CoverageUnit)
    → IsTable units [] table
    → length units < uint64
    → Inv table (nothing_seen table)
Inv-nothing_seen units table i small = record {
  split = ground (arith, missing-none table);
  known = omega (arith, i.sized, small);
  still_open = refl;
  collects = refl;
  skips = refl;
  gapped = refl;
  blocked = refl;
  all_valid = refl;
}

-- The entries that the two loops let in.
abbrev pub entries :
    List CoverageUnit → List CoverageAssessment → Result (List CoverageUnit × Assessed)
entries units assessments = do
  table ← add_units units []
  t ← add_assessments table assessments (nothing_seen table)
  ok (table, t)

IsReconciled-entries :
    (units table : List CoverageUnit) (assessments : List CoverageAssessment) (t : Assessed)
    → length units < uint64
    → add_units units [] ≡ ok table
    → add_assessments table assessments (nothing_seen table) ≡ ok t
    → IsReconciled units assessments (count_unassessed t.seen table t.summary)
IsReconciled-entries units table assessments t small h k =
    let i = IsTable-add_units units [] table refl h in
    let inv = Inv-nothing_seen units table i small in
    IsReconciled-final units table assessments t i
      (IsCounted-add_assessments table assessments (nothing_seen table) t i.distinct
        (omega (arith, i.sized, small)) inv k)
      small

check_summary-ok :
    (require_terminal : Bool) (s u : CoverageSummary)
    → check_summary require_terminal s ≡ ok u
    → (s ≡ u) × (require_terminal ≡ true → u.open_units ≡ 0)
check_summary-ok require_terminal s u h =
    let open_check =
      refuse_if (require_terminal && not (s.open_units == 0)) "coverage has open expected units" in
    let sum_check =
      refuse_if (not (s.expected == sum_of s)) "coverage reconciliation invariant failed" in
    let p = ok->> (open_check >> sum_check) (ok s) u h in
    let e = ok-injective s u p.1 in
    let q =
      passes-refuse_if (require_terminal && not (s.open_units == 0))
        "coverage has open expected units" (passes->> open_check sum_check p.0).0 in
    (e, λ r. ground (arith, ap (λ v. v.open_units) e))

-- When `ReconcileCoverage` returns a summary of fewer than 2^64 units: it expects every unit once; it
-- counts the assessments of each status, and as material gaps those that carry a material gap of a
-- unit required for a negative finding; the counts add up without wrapping; where nothing is open,
-- every unit has a terminal assessment; and where a terminal state was required, nothing is open.
pub reconcile_coverage_lem :
    (units : List CoverageUnit) (assessments : List CoverageAssessment) (require_terminal : Bool)
    (s : CoverageSummary)
    → length units < uint64
    → reconcile_coverage units assessments require_terminal ≡ ok s
    → IsReconciled units assessments s × (require_terminal ≡ true → s.open_units ≡ 0)
unfolding reconcile_coverage
reconcile_coverage_lem units assessments require_terminal s small h =
    let p =
      ok->>= (add_units units [])
        (λ table. add_assessments table assessments (nothing_seen table) >>= λ t.
          check_summary require_terminal (count_unassessed t.seen table t.summary))
        s h in
    let q =
      ok->>= (add_assessments p.0 assessments (nothing_seen p.0))
        (λ t. check_summary require_terminal (count_unassessed t.seen p.0 t.summary)) s p.1.1 in
    let r = check_summary-ok require_terminal (count_unassessed q.0.seen p.0 q.0.summary) s q.1.1 in
    (
      subst (IsReconciled units assessments) r.0
          (IsReconciled-entries units p.0 assessments q.0 small p.1.0 q.1.0),
      r.1,
    )
