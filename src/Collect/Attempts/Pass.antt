-- ===== src/Collect/Attempts/Pass.antt =====
-- internal/collect/attempts.go: one pass over the attempts keeps the invariant and leaves none out.
use cirewind.Base.{
  ℕ, zero, suc, ◌+◌, ◌≤◌, ◌<◌, ◌≡◌, refl, true, false, ◌||◌, none, some, ◌∷◌, arith, ◌==◌,
  Bool-cases, inl, inr, Option-cases,
}
use mathlib.Core.Path.{subst}
use cirewind.Base.Int.{ℤ, pos}
use cirewind.Base.Order.{int_order}
use cirewind.Github.{CallError, Outcome, JobList, RunObject}
use cirewind.Collect.Gaps.{Gap, gap_from_error, gap_from_error-attempt}
use cirewind.Collect.Enumerate.{RepositoryTarget}
use cirewind.Collect.Attempts.{
  AttemptApi, Collecting, names_attempt, attempt_gap, attempt_bundle, fresh_attempt,
  collect_attempt, collect_attempts, job_outcome, bundle_of, identity_gap,
}
use cirewind.Collect.Attempts.Sound.{Inv, is_in, Inv-attempt_gap, Inv-add_bundle, job_outcome-jobs}

module _ (api : AttemptApi) (repository : RepositoryTarget) (run : ℤ) (attempt : ℕ)
    (c : Collecting) where
  abbrev answer : Outcome RunObject
  answer = api.get_workflow_run_attempt c.calls run attempt

  abbrev mismatch : Gap
  mismatch =
      identity_gap "workflow_run_attempt" repository.id run (pos attempt)
        "attempt response contradicted the requested run-attempt identity" answer.value.responses

  abbrev unanswered : CallError → Gap
  unanswered e = gap_from_error "workflow_run_attempt" repository.id run (pos attempt) e

  abbrev listed : Outcome JobList
  listed = api.list_jobs_for_attempt (suc c.calls) run attempt

  fresh_attempt-failed :
      (e : CallError)
      → answer.failure ≡ some e
      → attempt_gap attempt 1 (unanswered e) c ≡ fresh_attempt api repository run attempt c
  fresh_attempt-failed e h = ground arith

  fresh_attempt-mismatch :
      answer.failure ≡ none
      → names_attempt run attempt answer.value.run ≡ false
      → attempt_gap attempt 1 mismatch c ≡ fresh_attempt api repository run attempt c
  fresh_attempt-mismatch h n = ground arith

  fresh_attempt-bundle :
      answer.failure ≡ none
      → names_attempt run attempt answer.value.run ≡ true
      → attempt_bundle repository run attempt answer.value listed c
        ≡ fresh_attempt api repository run attempt c
  fresh_attempt-bundle h n = ground arith

  Inv-fresh_attempt :
      is_in attempt c.collected ≡ false
      → Inv run c
      → Inv run (fresh_attempt api repository run attempt c)
  Inv-fresh_attempt f i = elim (Option-cases answer.failure) [
    | inr (e, h) ↦ subst (Inv run) (fresh_attempt-failed e h) (
        Inv-attempt_gap run attempt 1 (unanswered e) c
          (gap_from_error-attempt "workflow_run_attempt" repository.id run (pos attempt) e) i)
    | inl h ↦ elim (Bool-cases (names_attempt run attempt answer.value.run)) [
      | inl n ↦
          (let jobs = job_outcome repository.id run attempt listed in
            subst (Inv run) (fresh_attempt-bundle h n) (
              Inv-add_bundle run (bundle_of attempt answer.value listed jobs) jobs.gaps c
                (n, job_outcome-jobs repository.id run attempt listed) f i))
      | inr n ↦
          subst (Inv run) (fresh_attempt-mismatch h n)
            (Inv-attempt_gap run attempt 1 mismatch c refl i)
    ]
  ]

is_in-fresh_attempt :
    (api : AttemptApi) (repository : RepositoryTarget) (run : ℤ) (attempt : ℕ) (c : Collecting)
    → (fresh_attempt api repository run attempt c).collected ≡ attempt ∷ c.collected
is_in-fresh_attempt api repository run attempt c = ground arith

Inv-collect_attempt :
    (api : AttemptApi) (repository : RepositoryTarget) (run : ℤ) (attempt : ℕ) (c : Collecting)
    → Inv run c
    → Inv run (collect_attempt api repository run attempt c)
unfolding collect_attempt
Inv-collect_attempt api repository run attempt c i = elim (Bool-cases (is_in attempt c.collected)) [
  | inl e ↦ rw e i
  | inr e ↦ rw e (Inv-fresh_attempt api repository run attempt c e i)
]

-- One step of the loop collects its own attempt and forgets none.
is_in-collect_attempt :
    (api : AttemptApi) (repository : RepositoryTarget) (run : ℤ) (attempt : ℕ) (c : Collecting)
    (a : ℕ)
    → is_in a (collect_attempt api repository run attempt c).collected
      ≡ (attempt == a || is_in a c.collected)
unfolding collect_attempt
is_in-collect_attempt api repository run attempt c a =
    ground (arith, is_in-fresh_attempt api repository run attempt c)

pub Inv-collect_attempts :
    (api : AttemptApi) (repository : RepositoryTarget) (run : ℤ) (left first : ℕ) (c : Collecting)
    → Inv run c
    → Inv run (collect_attempts api repository run left first c)
unfolding collect_attempts
Inv-collect_attempts api repository run zero first c i = i
Inv-collect_attempts api repository run (suc left) first c i =
    Inv-collect_attempts api repository run left (suc first)
      (collect_attempt api repository run first c)
      (Inv-collect_attempt api repository run first c i)

is_in-collect_attempts :
    (api : AttemptApi) (repository : RepositoryTarget) (run : ℤ) (left first : ℕ) (c : Collecting)
    (a : ℕ)
    → is_in a c.collected ≡ true
    → is_in a (collect_attempts api repository run left first c).collected ≡ true
unfolding collect_attempts
is_in-collect_attempts api repository run zero first c a h = h
is_in-collect_attempts api repository run (suc left) first c a h =
    is_in-collect_attempts api repository run left (suc first)
      (collect_attempt api repository run first c) a
      (rw (is_in-collect_attempt api repository run first c a, h) (ground arith))

pub collect_attempts_reach :
    (api : AttemptApi) (repository : RepositoryTarget) (run : ℤ) (left first : ℕ) (c : Collecting)
    (a : ℕ)
    → first ≤ a
    → a < first + left
    → is_in a (collect_attempts api repository run left first c).collected ≡ true
unfolding collect_attempts
collect_attempts_reach api repository run zero first c a h k = absurd (omega arith)
collect_attempts_reach api repository run (suc left) first c a h k =
    elim (Bool-cases (first == a)) [
      | inl e ↦
          is_in-collect_attempts api repository run left (suc first)
            (collect_attempt api repository run first c) a
            (rw (is_in-collect_attempt api repository run first c a, e) refl)
      | inr e ↦
          collect_attempts_reach api repository run left (suc first)
            (collect_attempt api repository run first c) a (ground arith) (omega arith)
    ]
