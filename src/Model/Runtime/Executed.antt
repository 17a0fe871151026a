-- ===== src/Model/Runtime/Executed.antt =====
-- internal/model/runtime.go: an observation that supports execution is about one step of its job.
use cirewind.Base.{
  String, ◌≡◌, true, ◌&&◌, not, none, some, Option, is_some, arith, ◌>>◌, Checked, passes,
  passes->>, passes-refuse_if, refuse_if,
}
use cirewind.Model.Identities.{
  JobExecutionIdentity, StepIdentity, same_job, validate_step, check_some,
}
use cirewind.Model.Vocabulary.{ObservationKind, supports_executed}
use cirewind.Model.Runtime.{
  RuntimeActionObservation, requires_step, requires_identity, validate_head, validate_step_of,
  validate_tail, validate_runtime_observation,
}

abbrev step_check : JobExecutionIdentity → StepIdentity → Checked
step_check execution step =
    validate_step step
    >> refuse_if (not (same_job step.job execution))
        "runtime observation step belongs to a different execution"

-- A step that is there and belongs to the job.
abbrev pub IsStepOf : JobExecutionIdentity → Option StepIdentity → Type 0
IsStepOf execution none = ⊥
IsStepOf execution (some step) =
    (passes (validate_step step) ≡ true) × (same_job step.job execution ≡ true)

stepped :
    (execution : JobExecutionIdentity) (step : Option StepIdentity)
    → passes (check_some (step_check execution) step) ≡ true
    → is_some step ≡ true
    → IsStepOf execution step
stepped execution none h k = cc
stepped execution (some step) h k =
    let message : String = "runtime observation step belongs to a different execution" in
    let p =
      passes->> (validate_step step) (refuse_if (not (same_job step.job execution)) message) h in
    (p.0, ground (arith, passes-refuse_if (not (same_job step.job execution)) message p.1))

executed_requires_step : (k : ObservationKind) → supports_executed k ≡ true → requires_step k ≡ true
unfolding supports_executed
executed_requires_step k h = ground arith

-- An observation that is accepted and supports the conclusion of an execution names a step that is
-- valid itself and belongs to the very job execution that the observation is about.
pub executed-IsStepOf :
    (o : RuntimeActionObservation)
    → passes (validate_runtime_observation o) ≡ true
    → supports_executed o.kind ≡ true
    → IsStepOf o.execution o.step
unfolding validate_runtime_observation validate_step_of
executed-IsStepOf o h k =
    let p = passes->> (validate_head o >> validate_step_of o) (validate_tail o) h in
    let q = passes->> (validate_head o) (validate_step_of o) p.0 in
    let step : Checked = check_some (step_check o.execution) o.step in
    let demanded =
      refuse_if (requires_step o.kind && not (is_some o.step))
        "step lifecycle observation requires exact step identity" in
    let identity =
      refuse_if
        (requires_identity o.kind
          && not (is_some o.source_object_id)
          && not (is_some o.package_digest))
        "resolution or preparation observation requires an exact source object or typed package digest" in
    let r = passes->> (step >> demanded) identity q.1 in
    let s = passes->> step demanded r.0 in
    stepped o.execution o.step s.0 (
      ground (
        arith,
        executed_requires_step o.kind k,
        passes-refuse_if (requires_step o.kind && not (is_some o.step))
            "step lifecycle observation requires exact step identity" s.1,
      ))
