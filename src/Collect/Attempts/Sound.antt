-- ===== src/Collect/Attempts/Sound.antt =====
-- internal/collect/attempts.go: what each step of a snapshot keeps true.
use cirewind.Base.{
  ℕ, ◌≤◌, ◌≡◌, refl, sym, Bool, true, false, ◌||◌, some, List, [], ◌∷◌, ◌++◌, arith, ◌==◌, any,
  count_of, count_of-append, All, All-append, All-map, All-keep, keep, inl, inr, Option-cases,
}
use mathlib.Core.Path.{subst}
use cirewind.Base.Int.{ℤ, pos, is_positive, same_ℤ, same_ℤ_refl}
use cirewind.Base.Order.{int_order}
use cirewind.Base.Sort.{All-sort_by}
use cirewind.Github.{CallError, Outcome, WorkflowJob, JobList}
use cirewind.Collect.Gaps.{Gap}
use cirewind.Collect.Attempts.{
  AttemptBundle, AttemptSnapshot, Collecting, names_attempt, attempt_gap, job_outcome, id_count,
  screen_jobs, empty_screen, screened, add_bundle,
}
use cirewind.Collect.Attempts.Quarantine.{is_trusted, screen_jobs-kept, job_outcome-screened}

abbrev pub IsJobOf : ℤ → WorkflowJob → Type 0
IsJobOf run job = (is_positive job.id ≡ true) × (same_ℤ job.run_id run ≡ true)

-- The response names the run and the attempt, and so do the jobs.
abbrev pub IsBundleOf : ℤ → AttemptBundle → Type 0
IsBundleOf run b = (names_attempt run b.attempt b.run ≡ true) × All (IsJobOf run) b.jobs

abbrev pub has_attempt : ℕ → AttemptBundle → Bool
has_attempt a b = b.attempt == a

-- The attempt has a bundle or a gap.
abbrev pub is_accounted : ℕ → AttemptSnapshot → Bool
is_accounted a s = any (has_attempt a) s.attempts || any (λ g. same_ℤ g.attempt (pos a)) s.gaps

abbrev pub is_in : ℕ → List ℕ → Bool
is_in a xs = any (λ n. n == a) xs

pub record Inv (run : ℤ) (c : Collecting) : Type 0 where
  pub sound : All (IsBundleOf run) c.snapshot.attempts
  pub known :
      (a : ℕ) → is_in a c.collected ≡ false → count_of (has_attempt a) c.snapshot.attempts ≡ 0
  pub once : (a : ℕ) → count_of (has_attempt a) c.snapshot.attempts ≤ 1
  pub accounted : (a : ℕ) → is_in a c.collected ≡ true → is_accounted a c.snapshot ≡ true
  pub unsettled : c.snapshot.stable ≡ false

any-append :
    {A : Type 0} (p : A → Bool) (xs ys : List A) → any p (xs ++ ys) ≡ (any p xs || any p ys)
any-append p [] ys = refl
any-append p (x ∷ xs) ys = ground (arith, any-append p xs ys)

pub Inv-attempt_gap :
    (run : ℤ) (attempt made : ℕ) (gap : Gap) (c : Collecting)
    → gap.attempt ≡ pos attempt
    → Inv run c
    → Inv run (attempt_gap attempt made gap c)
Inv-attempt_gap run attempt made gap c e i = record {
  sound = i.sound;
  known = λ a h. i.known a (ground arith);
  once = i.once;
  accounted = λ a h. ground (
    arith,
    i.accounted a,
    any-append (λ g. same_ℤ g.attempt (pos a)) c.snapshot.gaps (gap ∷ []),
    same_ℤ_refl (pos a),
  );
  unsettled = i.unsettled;
}

trusted_job :
    (jobs : List WorkflowJob) (run : ℤ) (job : WorkflowJob)
    → is_trusted jobs run job ≡ true
    → IsJobOf run job
trusted_job jobs run job h = (ground arith, ground arith)

job_outcome-failed :
    (repository run : ℤ) (attempt : ℕ) (listed : Outcome JobList) (e : CallError)
    → listed.failure ≡ some e
    → (job_outcome repository run attempt listed).jobs ≡ []
unfolding job_outcome
job_outcome-failed repository run attempt listed e h = ground arith

screened-jobs :
    (repository run : ℤ) (attempt : ℕ) (listing : JobList)
    → All (IsJobOf run) (screened repository run attempt listing).jobs
screened-jobs repository run attempt listing =
    let jobs = listing.jobs in
    let kept = keep (is_trusted jobs run) jobs in
    All-sort_by (λ j. j.id) (IsJobOf run) (screen_jobs (id_count jobs) run jobs empty_screen).kept
      (subst (All (IsJobOf run)) (sym (screen_jobs-kept (id_count jobs) run jobs empty_screen)) (
        All-map (λ j. is_trusted jobs run j ≡ true) (IsJobOf run) (trusted_job jobs run) kept
          (All-keep (is_trusted jobs run) jobs)))

pub job_outcome-jobs :
    (repository run : ℤ) (attempt : ℕ) (listed : Outcome JobList)
    → All (IsJobOf run) (job_outcome repository run attempt listed).jobs
job_outcome-jobs repository run attempt listed = elim (Option-cases listed.failure) [
  | inl e ↦
      subst (λ o. All (IsJobOf run) o.jobs) (job_outcome-screened repository run attempt listed e)
        (screened-jobs repository run attempt listed.value)
  | inr (e, h) ↦
      subst (All (IsJobOf run)) (sym (job_outcome-failed repository run attempt listed e h)) tt
]

pub Inv-add_bundle :
    (run : ℤ) (bundle : AttemptBundle) (gs : List Gap) (c : Collecting)
    → IsBundleOf run bundle
    → is_in bundle.attempt c.collected ≡ false
    → Inv run c
    → Inv run (add_bundle bundle gs c)
Inv-add_bundle run bundle gs c n f i = record {
  sound = All-append (IsBundleOf run) c.snapshot.attempts (bundle ∷ []) i.sound (n, tt);
  known = λ a h.
      ground (arith, i.known a, count_of-append (has_attempt a) c.snapshot.attempts (bundle ∷ []));
  once = λ a. ground (
    arith,
    i.known a,
    i.once a,
    count_of-append (has_attempt a) c.snapshot.attempts (bundle ∷ []),
  );
  accounted = λ a h. ground (
    arith,
    i.accounted a,
    any-append (has_attempt a) c.snapshot.attempts (bundle ∷ []),
    any-append (λ g. same_ℤ g.attempt (pos a)) c.snapshot.gaps gs,
  );
  unsettled = i.unsettled;
}
