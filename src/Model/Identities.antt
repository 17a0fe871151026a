-- ===== src/Model/Identities.antt =====
-- internal/model/ids.go: the identities of run attempts, jobs and steps.
use cirewind.Base.{
  ℕ, Bool, true, false, ◌&&◌, not, Option, none, some, if◌then◌else◌, ◌==◌, is_nil, Text, ok, err,
  Checked, refuse_if, ◌>>◌,
}
use cirewind.Base.Int.{ℤ, pos, same_ℤ}
use cirewind.Model.Texts.{valid_bounded_identity_text}
use cirewind.Model.Ids.{validate_positive}

-- Run attempts, ordinals and occurrences are `uint32`; the step's API number is an `int32`.
pub record RunAttemptIdentity : Type 0 where
  pub repository_id : ℤ
  pub run_id : ℤ
  pub run_attempt : ℕ

unfoldable pub validate_run_attempt_identity : RunAttemptIdentity → Checked
unfolding validate_positive
validate_run_attempt_identity id =
    validate_positive id.repository_id "repository ID"
    >> validate_positive id.run_id "workflow run ID"
    >> validate_positive (pos id.run_attempt) "run attempt"

pub record JobExecutionIdentity : Type 0 where
  pub repository_id : ℤ
  pub run_id : ℤ
  pub run_attempt : ℕ
  pub job_id : ℤ

unfoldable pub validate_job_execution : JobExecutionIdentity → Checked
unfolding validate_run_attempt_identity validate_positive
validate_job_execution id =
    validate_run_attempt_identity (record {
      repository_id = id.repository_id;
      run_id = id.run_id;
      run_attempt = id.run_attempt;
    })
    >> validate_positive id.job_id "job ID"

-- `==` on the struct.
abbrev pub same_job : JobExecutionIdentity → JobExecutionIdentity → Bool
same_job a b =
    same_ℤ a.repository_id b.repository_id
    && same_ℤ a.run_id b.run_id
    && a.run_attempt == b.run_attempt
    && same_ℤ a.job_id b.job_id

pub data LifecyclePhase : Type 0 where
  pre main post : LifecyclePhase
  other : Text → LifecyclePhase

abbrev pub phase_valid : LifecyclePhase → Bool
phase_valid (other v) = false
phase_valid _ = true

pub record StepIdentity : Type 0 where
  pub job : JobExecutionIdentity
  pub timeline_record_id : Text
  pub api_step_number : Option ℤ
  pub ast_ordinal : Option ℕ
  pub lifecycle_phase : LifecyclePhase
  pub occurrence : ℕ

-- A pointer that is not nil is checked.
abbrev pub check_some {ℓ} : {A : Type ℓ} → (A → Checked) → Option A → Checked
check_some check none = ok tt
check_some check (some a) = check a

abbrev validate_numbered : Option ℤ → Option ℕ → Checked
validate_numbered none ordinal = err "step requires a timeline record ID or API step number"
validate_numbered (some number) ordinal =
    validate_positive number "API step number"
    >> check_some (λ n. validate_positive (pos n) "AST ordinal") ordinal

unfoldable pub validate_step : StepIdentity → Checked
unfolding validate_job_execution validate_positive valid_bounded_identity_text
validate_step id =
    validate_job_execution id.job
    >> refuse_if (not (phase_valid id.lifecycle_phase)) "invalid lifecycle phase"
    >> validate_positive (pos id.occurrence) "occurrence"
    >> (if not (is_nil id.timeline_record_id)
        then refuse_if (not (valid_bounded_identity_text id.timeline_record_id 256))
            "timeline record ID is invalid"
        else validate_numbered id.api_step_number id.ast_ordinal)
