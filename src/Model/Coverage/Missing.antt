-- ===== src/Model/Coverage/Missing.antt =====
-- internal/model/coverage.go: the units without an assessment, counted as assessments come in.
use mathlib.Core.Option.{some-injective}
use cirewind.Base.{
  ℕ, ◌+◌, ◌≡◌, refl, ap, Bool, true, false, ◌&&◌, not, some, Option, List, [], ◌∷◌, arith,
  if◌then◌else◌, any, count_of, length, same_text, same_text_sound, Text, Bool-cases, inl, inr,
  ok->>, passes->>, passes-refuse_if, ok, ◌>>◌, refuse_if, within,
}
use cirewind.Model.Coverage.{CoverageUnit, CoverageAssessment, validate_unit}
use cirewind.Model.Coverage.Reconcile.{has_unit_id, assesses, add_units, find_unit}

abbrev pub lacks : List CoverageAssessment → CoverageUnit → Bool
lacks seen u = not (any (assesses u.id) seen)

abbrev pub missing : List CoverageAssessment → List CoverageUnit → ℕ
missing seen units = count_of (lacks seen) units

abbrev pub is_distinct : List CoverageUnit → Bool
is_distinct [] = true
is_distinct (u ∷ units) = not (any (has_unit_id u.id) units) && is_distinct units

same_text_sym : (s t : Text) → same_text s t ≡ same_text t s
same_text_sym s t = elim (Bool-cases (same_text s t)) [
  | inl e ↦ cc (same_text_sound s t e)
  | inr e ↦ elim (Bool-cases (same_text t s)) [ inl f ↦ cc (same_text_sound t s f) | inr f ↦ cc ]
]

missing-other :
    (a : CoverageAssessment) (seen : List CoverageAssessment) (units : List CoverageUnit)
    → any (has_unit_id a.unit_id) units ≡ false
    → missing (a ∷ seen) units ≡ missing seen units
missing-other a seen [] h = refl
missing-other a seen (u ∷ units) h =
    ground (arith, same_text_sym u.id a.unit_id, missing-other a seen units)

pub missing-enter :
    (a : CoverageAssessment) (seen : List CoverageAssessment) (units : List CoverageUnit)
    → is_distinct units ≡ true
    → any (has_unit_id a.unit_id) units ≡ true
    → any (assesses a.unit_id) seen ≡ false
    → missing (a ∷ seen) units + 1 ≡ missing seen units
missing-enter a seen [] d k f = cc
missing-enter a seen (u ∷ units) d k f = elim (Bool-cases (same_text u.id a.unit_id)) [
  | inl e ↦
      (let p : u.id ≡ a.unit_id = same_text_sound u.id a.unit_id e in
        ground (
          arith,
          same_text_sym u.id a.unit_id,
          ap (λ id. any (has_unit_id id) units) p,
          ap (λ id. any (assesses id) seen) p,
          missing-other a seen units,
        ))
  | inr e ↦ ground (arith, same_text_sym u.id a.unit_id, missing-enter a seen units)
]

pub missing-none : (units : List CoverageUnit) → missing [] units ≡ length units
missing-none [] = refl
missing-none (u ∷ units) = ground (arith, missing-none units)

pub find_unit-known :
    (id : Text) (units : List CoverageUnit) (u : CoverageUnit)
    → find_unit id units ≡ some u
    → any (has_unit_id id) units ≡ true
unfolding find_unit
find_unit-known id [] u h = cc
find_unit-known id (v ∷ units) u h = ground (arith, find_unit-known id units u)

found_first :
    (v u : CoverageUnit) (rest : Option CoverageUnit) (b : Bool)
    → b ≡ true
    → (if b then some v else rest) ≡ some u
    → v ≡ u
found_first v u rest true e h = some-injective v u h
found_first v u rest false e h = cc

no_other :
    (p : CoverageUnit → Bool) (id : Text) (units : List CoverageUnit)
    → any (has_unit_id id) units ≡ false
    → any (λ u. has_unit_id id u && p u) units ≡ false
no_other p id [] h = refl
no_other p id (u ∷ units) h = ground (arith, no_other p id units)

-- The unit that is found is the only one with its id.
pub any-find_unit :
    (p : CoverageUnit → Bool) (id : Text) (units : List CoverageUnit) (u : CoverageUnit)
    → is_distinct units ≡ true
    → find_unit id units ≡ some u
    → any (λ v. has_unit_id id v && p v) units ≡ p u
unfolding find_unit
any-find_unit p id [] u d h = cc
any-find_unit p id (v ∷ units) u d h = elim (Bool-cases (same_text v.id id)) [
  | inl e ↦ ground (
    arith,
    ap (λ i. any (has_unit_id i) units) (same_text_sound v.id id e),
    no_other p id units,
    ap p (found_first v u (find_unit id units) (same_text v.id id) e h),
  )
  | inr e ↦ ground (arith, any-find_unit p id units u)
]

-- What the loop over the units leaves.
pub record IsTable (units seen table : List CoverageUnit) : Type 0 where
  pub distinct : is_distinct table ≡ true
  pub sized : length table ≡ length seen + length units
  pub counts : (p : CoverageUnit → Bool) → count_of p table ≡ count_of p seen + count_of p units

add_units-step :
    (unit : CoverageUnit) (rest seen table : List CoverageUnit)
    → add_units (unit ∷ rest) seen ≡ ok table
    → (any (has_unit_id unit.id) seen ≡ false) × (add_units rest (unit ∷ seen) ≡ ok table)
unfolding add_units
add_units-step unit rest seen table h =
    let a =
      ok->>
        (within "coverage unit" (validate_unit unit)
          >> refuse_if (any (has_unit_id unit.id) seen) "coverage unit counted twice")
        (add_units rest (unit ∷ seen)) table h in
    let b =
      passes->> (within "coverage unit" (validate_unit unit))
        (refuse_if (any (has_unit_id unit.id) seen) "coverage unit counted twice") a.0 in
    (passes-refuse_if (any (has_unit_id unit.id) seen) "coverage unit counted twice" b.1, a.1)

pub IsTable-add_units :
    (units seen table : List CoverageUnit)
    → is_distinct seen ≡ true
    → add_units units seen ≡ ok table
    → IsTable units seen table
unfolding add_units
IsTable-add_units [] seen table d h = record {
  distinct = cc;
  sized = ground arith;
  counts = λ p. ground arith;
}
IsTable-add_units (unit ∷ rest) seen table d h =
    let s = add_units-step unit rest seen table h in
    let i = IsTable-add_units rest (unit ∷ seen) table (ground arith) s.1 in
    record {
      distinct = i.distinct;
      sized = ground (arith, i.sized);
      counts = λ p. ground (arith, i.counts p);
    }
