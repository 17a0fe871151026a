-- ===== src/Model/Finding/Support.antt =====
-- internal/model/coverage.go: what the coverage of a finding without a match has to show.
use mathlib.Core.Path.{subst}
use cirewind.Base.{
  String, ◌≡◌, refl, ap, Bool, true, false, ◌&&◌, none, some, Option, List, [], ◌∷◌, arith,
  if◌then◌else◌, any, count_of, length, All, All-map, Text, same_text, Bool-cases, inl, inr, ok,
  ◌>>=◌, ok->>=, ok-injective,
}
use cirewind.Model.Coverage.{CoverageUnit, CoverageAssessment}
use cirewind.Model.Coverage.Reconcile.{has_unit_id, has_assessment_id, find_unit, is_material_gap}
use cirewind.Model.Coverage.Missing.{is_distinct, any-find_unit}
use cirewind.Model.Coverage.Counts.{is_blocking, count_of_le}
use cirewind.Model.Finding.{find_assessment, known, select_coverage}

-- Where every selected assessment passes a test, each id of the coverage has one that does.
find_assessment-any :
    (p : CoverageAssessment → Bool) (id : Text) (table : List CoverageAssessment)
    (a : CoverageAssessment)
    → find_assessment id table ≡ some a
    → p a ≡ true
    → any (λ b. has_assessment_id id b && p b) table ≡ true
unfolding find_assessment
find_assessment-any p id [] a h q = cc
find_assessment-any p id (b ∷ table) a h q = elim (Bool-cases (same_text b.id id)) [
  | inl e ↦
      ground (arith, ap p (found_first b a (find_assessment id table) (same_text b.id id) e h))
  | inr e ↦ ground (arith, find_assessment-any p id table a)
]
  where
    found_first :
        (v u : CoverageAssessment) (rest : Option CoverageAssessment) (c : Bool)
        → c ≡ true
        → (if c then some v else rest) ≡ some u
        → v ≡ u
    found_first v u rest true e h = cc
    found_first v u rest false e h = cc

known-ok :
    {A : Type 0} (message : String) (found : Option A) (a : A)
    → known message found ≡ ok a
    → found ≡ some a
known-ok message none a h = cc
known-ok message (some b) a h = ap some (ok-injective b a h)

find_unit-id :
    (id : Text) (units : List CoverageUnit) (u : CoverageUnit)
    → find_unit id units ≡ some u
    → has_unit_id id u ≡ true
unfolding find_unit
find_unit-id id [] u h = cc
find_unit-id id (v ∷ units) u h = ground (arith, find_unit-id id units u)

-- What the selection keeps.
pub record IsSelected (units : List CoverageUnit) (table : List CoverageAssessment)
    (ids : List Text) (us : List CoverageUnit) (xs : List CoverageAssessment) : Type 0 where
  pub units_length : length us ≡ length ids
  pub length_same : length xs ≡ length ids
  pub represents :
      (p : CoverageAssessment → Bool)
      → count_of p xs ≡ length xs
      → All (λ id. any (λ a. has_assessment_id id a && p a) table ≡ true) ids
  pub blocks : All (λ a. is_blocking units a ≡ true → is_blocking us a ≡ true) xs

IsSelected-nil :
    (units : List CoverageUnit) (table : List CoverageAssessment) → IsSelected units table [] [] []
IsSelected-nil units table = record {
  units_length = refl;
  length_same = refl;
  represents = λ p h. tt;
  blocks = tt;
}

IsSelected-cons :
    (units : List CoverageUnit) (table : List CoverageAssessment) (id : Text) (ids : List Text)
    (us : List CoverageUnit) (xs : List CoverageAssessment) (a : CoverageAssessment)
    (u : CoverageUnit)
    → is_distinct units ≡ true
    → find_assessment id table ≡ some a
    → find_unit a.unit_id units ≡ some u
    → IsSelected units table ids us xs
    → IsSelected units table (id ∷ ids) (u ∷ us) (a ∷ xs)
IsSelected-cons units table id ids us xs a u d f g i = record {
  units_length = omega (arith, i.units_length);
  length_same = omega (arith, i.length_same);
  represents = λ p h. (
    find_assessment-any p id table a f (ground (arith, count_of_le p xs)),
    i.represents p (ground (arith, count_of_le p xs)),
  );
  blocks = (
    λ h. ground (
      arith,
      find_unit-id a.unit_id units u g,
      any-find_unit (λ v. is_material_gap v a.gap) a.unit_id units u d g,
    ),
    All-map (λ b. is_blocking units b ≡ true → is_blocking us b ≡ true)
        (λ b. is_blocking units b ≡ true → is_blocking (u ∷ us) b ≡ true)
        (λ b k h. ground (arith, k h)) xs i.blocks,
  );
}

pub IsSelected-select_coverage :
    (units : List CoverageUnit) (table : List CoverageAssessment) (ids : List Text)
    (us : List CoverageUnit) (xs : List CoverageAssessment)
    → is_distinct units ≡ true
    → select_coverage units table ids ≡ ok (us, xs)
    → IsSelected units table ids us xs
unfolding select_coverage
IsSelected-select_coverage units table [] us xs d h =
    let e = ok-injective ([], []) (us, xs) h in
    subst (λ r. IsSelected units table [] r.0 r.1) e (IsSelected-nil units table)
IsSelected-select_coverage units table (id ∷ ids) us xs d h =
    let p =
      ok->>= (known "finding references unknown coverage assessment" (find_assessment id table))
        (λ a.
          known "coverage assessment references unknown unit" (find_unit a.unit_id units) >>= λ u.
          select_coverage units table ids >>= λ r. ok (u ∷ r.0, a ∷ r.1))
        (us, xs) h in
    let q =
      ok->>= (known "coverage assessment references unknown unit" (find_unit p.0.unit_id units))
        (λ u. select_coverage units table ids >>= λ r. ok (u ∷ r.0, p.0 ∷ r.1)) (us, xs) p.1.1 in
    let r =
      ok->>= (select_coverage units table ids) (λ r. ok (q.0 ∷ r.0, p.0 ∷ r.1)) (us, xs) q.1.1 in
    subst (λ z. IsSelected units table (id ∷ ids) z.0 z.1)
      (ok-injective (q.0 ∷ r.0.0, p.0 ∷ r.0.1) (us, xs) r.1.1)
      (IsSelected-cons units table id ids r.0.0 r.0.1 p.0 q.0 d
        (known-ok "finding references unknown coverage assessment" (find_assessment id table) p.0
          p.1.0)
        (known-ok "coverage assessment references unknown unit" (find_unit p.0.unit_id units) q.0
          q.1.0)
        (IsSelected-select_coverage units table ids r.0.0 r.0.1 d r.1.0))
