-- ===== src/Collect/Attempts/Quarantine.antt =====
-- internal/collect/attempts.go: which jobs stay, and which names a log may not be matched by.
use mathlib.Core.List.{Perm, append-nil, append_assoc}
use mathlib.Core.Path.{subst}
use cirewind.Base.{
  ℕ, ◌≡◌, refl, sym, ap, ◌∙◌, Bool, ◌&&◌, ◌||◌, not, none, List, [], ◌∷◌, ◌++◌, map, arith, ltb,
  is_nil, keep, any, Text, same_text,
}
use cirewind.Base.Int.{ℤ, is_positive, same_ℤ}
use cirewind.Base.Order.{int_order, text_order}
use cirewind.Base.Sort.{sort_by, IsSorted, sort_by-perm, sort_by-IsSorted, any-sort_by}
use cirewind.Github.{Outcome, WorkflowJob, JobList}
use cirewind.Collect.Attempts.{
  Screen, JobOutcome, id_count, screen_job, screen_jobs, empty_screen, screen_gaps, screened,
  job_outcome, is_correlation_safe,
}

-- A positive id that no other job of the response has, and the run that was asked for.
abbrev pub is_trusted_by : (ℤ → ℕ) → ℤ → WorkflowJob → Bool
is_trusted_by counts run job =
    is_positive job.id && (not (ltb 1 (counts job.id)) && same_ℤ job.run_id run)

abbrev pub is_trusted : List WorkflowJob → ℤ → WorkflowJob → Bool
is_trusted jobs run job = is_trusted_by (id_count jobs) run job

module _ (counts : ℤ → ℕ) (run : ℤ) where
  abbrev untrusted : WorkflowJob → Bool
  untrusted job = not (is_trusted_by counts run job)

  abbrev names_of : List WorkflowJob → List Text
  names_of xs = map (λ j. j.name) (keep untrusted xs)

  abbrev is_flagged : Screen → Bool
  is_flagged s = s.missing_identity || (s.contradicted_run || s.has_duplicates)

  pub screen_jobs-kept :
      (xs : List WorkflowJob) (s : Screen)
      → (screen_jobs counts run xs s).kept ≡ s.kept ++ keep (is_trusted_by counts run) xs
  unfolding screen_jobs
  screen_jobs-kept [] s = sym (append-nil s.kept)
  screen_jobs-kept (x ∷ xs) s = ground (
    arith,
    screen_jobs-kept xs (screen_job counts run x s),
    append_assoc s.kept (x ∷ []) (keep (is_trusted_by counts run) xs),
  )

  screen_jobs-quarantined :
      (xs : List WorkflowJob) (s : Screen)
      → (screen_jobs counts run xs s).quarantined ≡ s.quarantined ++ names_of xs
  unfolding screen_jobs
  screen_jobs-quarantined [] s = sym (append-nil s.quarantined)
  screen_jobs-quarantined (x ∷ xs) s = ground (
    arith,
    screen_jobs-quarantined xs (screen_job counts run x s),
    append_assoc s.quarantined (x.name ∷ []) (names_of xs),
  )

  screen_jobs-flags :
      (xs : List WorkflowJob) (s : Screen)
      → is_flagged (screen_jobs counts run xs s) ≡ (is_flagged s || any untrusted xs)
  unfolding screen_jobs
  screen_jobs-flags [] s = ground arith
  screen_jobs-flags (x ∷ xs) s = ground (arith, screen_jobs-flags xs (screen_job counts run x s))

  any-names_of :
      (p : Text → Bool) (xs : List WorkflowJob)
      → any p (names_of xs) ≡ any (λ j. p j.name && untrusted j) xs
  any-names_of p [] = refl
  any-names_of p (x ∷ xs) = ground (arith, any-names_of p xs)

abbrev blocks : Text → Text → Bool
blocks name q = is_nil q || same_text q name

is_correlation_safe_lem :
    (qs : List Text) (name : Text) → is_correlation_safe qs name ≡ not (any (blocks name) qs)
unfolding is_correlation_safe
is_correlation_safe_lem [] name = refl
is_correlation_safe_lem (q ∷ qs) name = ground (arith, is_correlation_safe_lem qs name)

screen_gaps-none :
    (repository run : ℤ) (attempt : ℕ) (responses : List Text) (s : Screen)
    → is_nil (screen_gaps repository run attempt responses s)
      ≡ not (s.missing_identity || (s.contradicted_run || s.has_duplicates))
screen_gaps-none repository run attempt responses s = ground arith

abbrev pub is_untrusted : List WorkflowJob → ℤ → WorkflowJob → Bool
is_untrusted jobs run job = not (is_trusted jobs run job)

-- The jobs kept, in the order of their ids; a gap exactly where a job was set aside; and a name safe
-- exactly where no job set aside has it or has none.
abbrev pub IsQuarantined : ℤ → List WorkflowJob → JobOutcome → Type 0
IsQuarantined run jobs o =
    Perm o.jobs (keep (is_trusted jobs run) jobs)
    × IsSorted (λ j. j.id) o.jobs
    × (is_nil o.gaps ≡ not (any (is_untrusted jobs run) jobs))
    × ((name : Text)
        → is_correlation_safe o.quarantined name
          ≡ not (any (λ j. blocks name j.name && is_untrusted jobs run j) jobs))

IsQuarantined-screened :
    (repository run : ℤ) (attempt : ℕ) (listing : JobList)
    → IsQuarantined run listing.jobs (screened repository run attempt listing)
IsQuarantined-screened repository run attempt listing =
    let counts = id_count listing.jobs in
    let s = screen_jobs counts run listing.jobs empty_screen in
    (
      subst (λ l. Perm (sort_by (λ j. j.id) s.kept) l)
          (screen_jobs-kept counts run listing.jobs empty_screen) (sort_by-perm (λ j. j.id) s.kept),
      sort_by-IsSorted (λ j. j.id) s.kept,
      screen_gaps-none repository run attempt listing.responses s
          ∙ ap not (screen_jobs-flags counts run listing.jobs empty_screen),
      λ name.
          is_correlation_safe_lem (sort_by (λ n. n) s.quarantined) name
          ∙ ap not (
              any-sort_by (λ n. n) (blocks name) s.quarantined
              ∙ ap (any (blocks name))
                  (screen_jobs-quarantined counts run listing.jobs empty_screen)
              ∙ any-names_of counts run (blocks name) listing.jobs),
    )

pub job_outcome-screened :
    (repository run : ℤ) (attempt : ℕ) (listed : Outcome JobList)
    → listed.failure ≡ none
    → screened repository run attempt listed.value ≡ job_outcome repository run attempt listed
unfolding job_outcome
job_outcome-screened repository run attempt listed h = ground arith

-- When the jobs of an attempt were listed without an error: the bundle has exactly the jobs with a
-- positive id that no other job of the response has and with the run's own id, sorted by id; there
-- is a gap exactly when some job is none of these; and a name is safe to match a log by exactly
-- when no job set aside has that name or an empty one.
pub job_outcome_quarantines :
    (repository run : ℤ) (attempt : ℕ) (listed : Outcome JobList)
    → listed.failure ≡ none
    → IsQuarantined run listed.value.jobs (job_outcome repository run attempt listed)
job_outcome_quarantines repository run attempt listed h =
    subst (IsQuarantined run listed.value.jobs)
      (job_outcome-screened repository run attempt listed h)
      (IsQuarantined-screened repository run attempt listed.value)
