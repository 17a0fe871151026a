-- ===== src/Collect/Attempts/Samples.antt =====
-- A run of two attempts, the first with a job that names another run.
use cirewind.Base.{ℕ, ◌≡◌, refl, true, false, none, some, [], ◌∷◌, text}
use cirewind.Base.Int.{pos}
use cirewind.Github.{WorkflowRun, WorkflowJob, JobList, RunObject, Outcome}
use cirewind.Collect.Enumerate.{RepositoryTarget}
use cirewind.Collect.Attempts.{AttemptApi, job_outcome}
use cirewind.Collect.Attempts.Snapshot.{AttemptCollector, snapshot}
use cirewind.Collect.Attempts.Quarantine.{IsQuarantined, job_outcome_quarantines}
use cirewind.Collect.Attempts.Faithful.{IsFaithful, Reports}
use cirewind.Collect.Attempts.Stable.{snapshot-IsFaithful}

abbrev run_at : ℕ → WorkflowRun
run_at attempt = record {
  id = pos 42;
  run_attempt = pos attempt;
  status = text "completed";
  conclusion = text "success";
  created_at = 9223372100000000000_000000000;
  updated_at = none;
}

abbrev job : ℕ → ℕ → WorkflowJob
job id run = record { id = pos id; run_id = pos run; name = text "build" }

abbrev listing : JobList
listing = record { jobs = job 9 42 ∷ job 5 42 ∷ job 7 41 ∷ []; responses = [] }

abbrev listed : Outcome JobList
listed = record { value = listing; failure = none }

abbrev answer_of : WorkflowRun → Outcome RunObject
answer_of r = record { value = record { run = r; responses = [] }; failure = none }

abbrev two_attempts : AttemptApi
two_attempts = record {
  cancelled = λ n. false;
  get_workflow_run = λ n run. answer_of (run_at 2);
  get_workflow_run_attempt = λ n run attempt. answer_of (run_at attempt);
  list_jobs_for_attempt = λ n run attempt. listed;
}

abbrev collector : AttemptCollector
collector = record { api = some two_attempts; max_stabilization_passes = pos 0 }

abbrev target : RepositoryTarget
target = record { id = pos 7; owner = text "o"; name = text "r" }

job_outcome_quarantines_example :
    IsQuarantined (pos 42) listing.jobs (job_outcome (pos 7) (pos 42) 1 listed)
job_outcome_quarantines_example = job_outcome_quarantines (pos 7) (pos 42) 1 listed refl

snapshot_settles : Reports (λ s. s.stable ≡ true) (snapshot collector target (pos 42))
unfolding snapshot
snapshot_settles = refl

snapshot-IsFaithful_example : Reports (IsFaithful (pos 42)) (snapshot collector target (pos 42))
snapshot-IsFaithful_example = snapshot-IsFaithful collector target (pos 42)
