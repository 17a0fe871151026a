-- ===== src/Model/Coverage/Opened.antt =====
-- internal/model/coverage.go: the units that stay open, and the counts of a summary.
use cirewind.Base.{
  ◌+◌, ◌<◌, ◌≡◌, refl, ◌∙◌, Bool, ◌&&◌, not, List, [], ◌∷◌, arith, if◌then◌else◌, any, count_of,
  length, ltb,
}
use cirewind.Model.Vocabulary.{expected, collected, not_applicable, gap, status_valid, is_terminal}
use cirewind.Model.Coverage.{CoverageUnit, CoverageAssessment}
use cirewind.Model.Coverage.Reconcile.{CoverageSummary, uint64, inc, assesses, count_unassessed}
use cirewind.Model.Coverage.Missing.{missing}
use cirewind.Model.Coverage.Counts.{has_status, is_blocking, inc_small, count_of_le}

-- A unit without an assessment that ends the matter.
abbrev pub is_unsettled : List CoverageAssessment → CoverageUnit → Bool
is_unsettled assessments u = not (any (λ a. assesses u.id a && is_terminal a.status) assessments)

pub record IsReconciled (units : List CoverageUnit) (assessments : List CoverageAssessment)
    (s : CoverageSummary) : Type 0 where
  pub all_units : s.expected ≡ length units
  pub collects : s.collected ≡ count_of (has_status collected) assessments
  pub skips : s.not_applicable ≡ count_of (has_status not_applicable) assessments
  pub gapped : s.gaps ≡ count_of (has_status gap) assessments
  pub blocked : s.material_gaps ≡ count_of (is_blocking units) assessments
  pub adds_up : s.expected ≡ s.collected + s.not_applicable + s.gaps + s.open_units
  pub settled : s.open_units ≡ 0 → count_of (is_unsettled assessments) units ≡ 0

pub any-count_of : {A : Type 0} (p : A → Bool) (xs : List A) → any p xs ≡ ltb 0 (count_of p xs)
any-count_of p [] = refl
any-count_of p (x ∷ xs) = ground (arith, any-count_of p xs)

pub count_of-ext :
    {A : Type 0} (p q : A → Bool) (xs : List A)
    → ((x : A) → p x ≡ q x)
    → count_of p xs ≡ count_of q xs
count_of-ext p q [] h = refl
count_of-ext p q (x ∷ xs) h = ground (arith, h x, count_of-ext p q xs h)

-- Only the open count changes.
pub record IsOpened (seen : List CoverageAssessment) (units : List CoverageUnit)
    (s u : CoverageSummary) : Type 0 where
  pub opened : u.open_units ≡ s.open_units + missing seen units
  pub same_expected : u.expected ≡ s.expected
  pub same_collected : u.collected ≡ s.collected
  pub same_skipped : u.not_applicable ≡ s.not_applicable
  pub same_gaps : u.gaps ≡ s.gaps
  pub same_blocked : u.material_gaps ≡ s.material_gaps

-- The summary after one unit.
abbrev opened_by : List CoverageAssessment → CoverageUnit → CoverageSummary → CoverageSummary
opened_by seen u s =
    if any (assesses u.id) seen then s else record s { open_units = inc s.open_units }

IsOpened-opened_by :
    (seen : List CoverageAssessment) (u : CoverageUnit) (s : CoverageSummary)
    → s.open_units + missing seen (u ∷ []) < uint64
    → IsOpened seen (u ∷ []) s (opened_by seen u s)
IsOpened-opened_by seen u s h = record {
  opened = ground (arith, inc_small s.open_units (s.open_units + 1));
  same_expected = ground arith;
  same_collected = ground arith;
  same_skipped = ground arith;
  same_gaps = ground arith;
  same_blocked = ground arith;
}

pub IsOpened-count_unassessed :
    (seen : List CoverageAssessment) (units : List CoverageUnit) (s : CoverageSummary)
    → s.open_units + missing seen units < uint64
    → IsOpened seen units s (count_unassessed seen units s)
unfolding count_unassessed
IsOpened-count_unassessed seen [] s h = record {
  opened = omega arith;
  same_expected = refl;
  same_collected = refl;
  same_skipped = refl;
  same_gaps = refl;
  same_blocked = refl;
}
IsOpened-count_unassessed seen (u ∷ units) s h =
    let i = IsOpened-opened_by seen u s (omega (arith, h)) in
    let j =
      IsOpened-count_unassessed seen units (opened_by seen u s) (omega (arith, h, i.opened)) in
    record {
      opened = omega (arith, i.opened, j.opened);
      same_expected = j.same_expected ∙ i.same_expected;
      same_collected = j.same_collected ∙ i.same_collected;
      same_skipped = j.same_skipped ∙ i.same_skipped;
      same_gaps = j.same_gaps ∙ i.same_gaps;
      same_blocked = j.same_blocked ∙ i.same_blocked;
    }

-- Where the statuses are all valid, the terminal ones are those that are not open.
pub not_terminal :
    (seen : List CoverageAssessment)
    → count_of (λ a. status_valid a.status) seen ≡ length seen
    → count_of (has_status expected) seen ≡ 0
    → (q : CoverageAssessment → Bool) → any (λ a. q a && is_terminal a.status) seen ≡ any q seen
unfolding is_terminal
not_terminal [] v e q = refl
not_terminal (a ∷ seen) v e q =
    let w : count_of (λ b. status_valid b.status) seen ≡ length seen =
      ground (arith, count_of_le (λ b. status_valid b.status) seen) in
    let f : count_of (has_status expected) seen ≡ 0 = ground arith in
    ground (arith, not_terminal seen w f q)

pub four_counts :
    (seen : List CoverageAssessment)
    → count_of (λ a. status_valid a.status) seen ≡ length seen
    → count_of (has_status expected) seen
        + count_of (has_status collected) seen
        + count_of (has_status not_applicable) seen
        + count_of (has_status gap) seen
      ≡ length seen
four_counts [] v = omega arith
four_counts (a ∷ seen) v =
    ground (arith, count_of_le (λ b. status_valid b.status) seen, four_counts seen)
