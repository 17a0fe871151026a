-- ===== src/Collect/Attempts.antt =====
-- internal/collect/attempts.go: a run's attempts and their jobs, read until the run stops changing.
pub mod Jobs
pub mod Snapshot
pub mod Quarantine
pub mod Sound
pub mod Pass
pub mod Faithful
pub mod Branches
pub mod Stable
mod Samples
unfoldable pub use Jobs.*
use cirewind.Base.{
  ℕ, zero, suc, ◌+◌, String, Bool, true, false, ◌&&◌, ◌||◌, not, Option, none, some, List, [], ◌∷◌,
  ◌++◌, if◌then◌else◌, ◌==◌, is_nil, any, is_some, same_text, text,
}
use cirewind.Base.Int.{ℤ, pos, negsuc, is_positive, same_ℤ}
use cirewind.Base.Order.{nat_order}
use cirewind.Base.Sort.{sort_by}
use cirewind.Base.Time.{zero_time}
use cirewind.Github.{ResponseMeta, CallError, Outcome, WorkflowRun, JobList, RunObject}
use cirewind.Collect.Gaps.{
  Gap, GapReason, material_gap, gap_from_error, malformed_response, live_state_race,
}
use cirewind.Collect.Enumerate.{RepositoryTarget}

-- GitHub during one snapshot: a call's answer depends on the number of calls before it, and so does
-- whether the context has been cancelled.
pub record AttemptApi : Type 0 where
  pub cancelled : ℕ → Bool
  pub get_workflow_run : ℕ → ℤ → Outcome RunObject
  pub get_workflow_run_attempt : ℕ → ℤ → ℕ → Outcome RunObject
  pub list_jobs_for_attempt : ℕ → ℤ → ℕ → Outcome JobList

-- A struct that no response has filled.
abbrev pub no_run : WorkflowRun
no_run = record {
  id = pos 0;
  run_attempt = pos 0;
  status = [];
  conclusion = [];
  created_at = zero_time;
  updated_at = none;
}

pub record AttemptSnapshot : Type 0 where
  pub initial_parent : WorkflowRun
  pub final_parent : WorkflowRun
  pub parent_responses : List ResponseMeta
  pub attempts : List AttemptBundle
  pub gaps : List Gap
  pub stable : Bool

-- The snapshot in the making, the keys of the map `collected`, and the calls made so far.
pub record Collecting : Type 0 where
  pub snapshot : AttemptSnapshot
  pub collected : List ℕ
  pub calls : ℕ

abbrev pub same_run_snapshot : WorkflowRun → WorkflowRun → Bool
same_run_snapshot left right =
    same_ℤ left.id right.id
    && same_ℤ left.run_attempt right.run_attempt
    && same_text left.status right.status
    && same_text left.conclusion right.conclusion
    && same_update left.updated_at right.updated_at
  where
    same_update : Option ℕ → Option ℕ → Bool
    same_update none none = true
    same_update none (some u) = false
    same_update (some t) none = false
    same_update (some t) (some u) = t == u

abbrev pub add_gaps : List Gap → AttemptSnapshot → AttemptSnapshot
add_gaps gs s = record s { gaps = s.gaps ++ gs }

-- An attempt that leaves a gap and no bundle.
abbrev pub attempt_gap : ℕ → ℕ → Gap → Collecting → Collecting
attempt_gap attempt made gap c = record {
  snapshot = add_gaps (gap ∷ []) c.snapshot;
  collected = attempt ∷ c.collected;
  calls = c.calls + made;
}

-- The attempt whose response names it, after its jobs were listed.
abbrev pub bundle_of : ℕ → RunObject → Outcome JobList → JobOutcome → AttemptBundle
bundle_of attempt object listed jobs = record {
  attempt = attempt;
  run = object.run;
  jobs = jobs.jobs;
  responses = object.responses ++ listed.value.responses;
  quarantined_job_names = jobs.quarantined;
}

abbrev pub add_bundle : AttemptBundle → List Gap → Collecting → Collecting
add_bundle bundle gs c = record {
  snapshot = record (add_gaps gs c.snapshot) { attempts = c.snapshot.attempts ++ bundle ∷ [] };
  collected = bundle.attempt ∷ c.collected;
  calls = c.calls + 2;
}

abbrev pub attempt_bundle :
    RepositoryTarget → ℤ → ℕ → RunObject → Outcome JobList → Collecting → Collecting
attempt_bundle repository run attempt object listed c =
    let jobs = job_outcome repository.id run attempt listed in
    add_bundle (bundle_of attempt object listed jobs) jobs.gaps c

-- `Run.ID != runID || Run.RunAttempt != attempt`, negated.
abbrev pub names_attempt : ℤ → ℕ → WorkflowRun → Bool
names_attempt run attempt r = same_ℤ r.id run && same_ℤ r.run_attempt (pos attempt)

-- The body of the loop over the attempts.
abbrev pub fresh_attempt : AttemptApi → RepositoryTarget → ℤ → ℕ → Collecting → Collecting
fresh_attempt api repository run attempt c =
    let answer = api.get_workflow_run_attempt c.calls run attempt in
    elim answer.failure [
      | some e ↦
          attempt_gap attempt 1
            (gap_from_error "workflow_run_attempt" repository.id run (pos attempt) e) c
      | none ↦
          if not (names_attempt run attempt answer.value.run)
          then attempt_gap attempt 1
              (identity_gap "workflow_run_attempt" repository.id run (pos attempt)
                "attempt response contradicted the requested run-attempt identity"
                answer.value.responses)
              c
          else attempt_bundle repository run attempt answer.value
              (api.list_jobs_for_attempt (suc c.calls) run attempt) c
    ]

unfoldable pub collect_attempt : AttemptApi → RepositoryTarget → ℤ → ℕ → Collecting → Collecting
unfolding gap_from_error
collect_attempt api repository run attempt c =
    if any (λ n. n == attempt) c.collected then c else fresh_attempt api repository run attempt c

-- `for attempt := first; attempt <= last`, with `left` attempts to go.
unfoldable pub collect_attempts :
    AttemptApi → RepositoryTarget → ℤ → ℕ → ℕ → Collecting → Collecting
collect_attempts api repository run zero first c = c
collect_attempts api repository run (suc left) first c =
    collect_attempts api repository run left (suc first)
      (collect_attempt api repository run first c)

-- An error with no snapshot, an error beside what was found, or a snapshot.
pub data Snapshotted : Type 0 where
  refused : String → Snapshotted
  interrupted : AttemptSnapshot → Snapshotted
  collected : AttemptSnapshot → Snapshotted

abbrev pub by_attempt : AttemptSnapshot → AttemptSnapshot
by_attempt s = record s { attempts = sort_by (λ b. b.attempt) s.attempts }
