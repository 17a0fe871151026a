-- ===== src/Collect/Attempts/Jobs.antt =====
-- internal/collect/attempts.go: the jobs of one attempt, and the quarantine of those whose identity
-- the response does not settle.
use cirewind.Base.{
  ℕ, String, Bool, true, false, ◌||◌, not, none, some, List, [], ◌∷◌, ◌++◌, if◌then◌else◌, ltb,
  is_nil, count_of, Text, same_text,
}
use cirewind.Base.Int.{ℤ, pos, is_positive, same_ℤ}
use cirewind.Base.Order.{int_order, text_order}
use cirewind.Base.Sort.{sort_by}
use cirewind.Github.{ResponseMeta, Outcome, WorkflowRun, WorkflowJob, JobList}
use cirewind.Collect.Gaps.{Gap, material_gap, gap_from_error, ambiguous_correlation}

pub record AttemptBundle : Type 0 where
  pub attempt : ℕ
  pub run : WorkflowRun
  pub jobs : List WorkflowJob
  pub responses : List ResponseMeta
  pub quarantined_job_names : List Text

-- `LogJobNameCorrelationSafe`
unfoldable pub is_correlation_safe : List Text → Text → Bool
is_correlation_safe [] name = true
is_correlation_safe (q ∷ rest) name =
    if is_nil q || same_text q name then false else is_correlation_safe rest name

abbrev pub identity_gap : String → ℤ → ℤ → ℤ → String → List ResponseMeta → Gap
identity_gap scope repository run attempt diagnostic responses =
    record (material_gap ambiguous_correlation scope repository run false diagnostic) {
      attempt = attempt;
      responses = responses;
    }

-- What the loop over the jobs gathers. Of the set of repeated ids the code only asks whether it is
-- empty.
pub record Screen : Type 0 where
  pub kept : List WorkflowJob
  pub quarantined : List Text
  pub missing_identity : Bool
  pub contradicted_run : Bool
  pub has_duplicates : Bool

abbrev pub id_count : List WorkflowJob → ℤ → ℕ
id_count jobs id = count_of (λ j. same_ℤ j.id id) jobs

-- `counts` is the map that the loop before has filled; it has the positive ids alone, and is read
-- at those alone.
abbrev pub screen_job : (ℤ → ℕ) → ℤ → WorkflowJob → Screen → Screen
screen_job counts run job s =
    if not (is_positive job.id)
    then record s { missing_identity = true; quarantined = s.quarantined ++ job.name ∷ [] }
    else if ltb 1 (counts job.id)
    then record s { has_duplicates = true; quarantined = s.quarantined ++ job.name ∷ [] }
    else if not (same_ℤ job.run_id run)
    then record s { contradicted_run = true; quarantined = s.quarantined ++ job.name ∷ [] }
    else record s { kept = s.kept ++ job ∷ [] }

unfoldable pub screen_jobs : (ℤ → ℕ) → ℤ → List WorkflowJob → Screen → Screen
screen_jobs counts run [] s = s
screen_jobs counts run (job ∷ rest) s = screen_jobs counts run rest (screen_job counts run job s)

abbrev pub empty_screen : Screen
empty_screen = record {
  kept = [];
  quarantined = [];
  missing_identity = false;
  contradicted_run = false;
  has_duplicates = false;
}

-- The jobs of the bundle, the names set aside, and the gaps.
pub record JobOutcome : Type 0 where
  pub jobs : List WorkflowJob
  pub quarantined : List Text
  pub gaps : List Gap

abbrev gap_if : Bool → Gap → List Gap
gap_if true gap = gap ∷ []
gap_if false gap = []

abbrev pub screen_gaps : ℤ → ℤ → ℕ → List ResponseMeta → Screen → List Gap
screen_gaps repository run attempt responses s =
    gap_if s.missing_identity (
      identity_gap "attempt_job" repository run (pos attempt)
        "job response omitted a trustworthy execution identity" responses)
    ++ gap_if s.contradicted_run (
        identity_gap "attempt_job" repository run (pos attempt)
          "job response contradicted the requested run identity" responses)
    ++ gap_if s.has_duplicates (
        identity_gap "attempt_job" repository run (pos attempt)
          "attempt jobs response repeated a job ID; every occurrence was quarantined" responses)

-- Of a listing that came without an error.
abbrev pub screened : ℤ → ℤ → ℕ → JobList → JobOutcome
screened repository run attempt listing =
    let s = screen_jobs (id_count listing.jobs) run listing.jobs empty_screen in
    record {
      jobs = sort_by (λ j. j.id) s.kept;
      quarantined = sort_by (λ n. n) s.quarantined;
      gaps = screen_gaps repository run attempt listing.responses s;
    }

unfoldable pub job_outcome : ℤ → ℤ → ℕ → Outcome JobList → JobOutcome
unfolding gap_from_error screen_jobs sort_by
job_outcome repository run attempt listed = elim listed.failure [
  | some e ↦ record {
    jobs = [];
    quarantined = [];
    gaps = gap_from_error "attempt_jobs" repository run (pos attempt) e ∷ [];
  }
  | none ↦ screened repository run attempt listed.value
]
