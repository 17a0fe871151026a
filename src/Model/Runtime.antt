-- ===== src/Model/Runtime.antt =====
-- internal/model/runtime.go: runtime observations and the spans of their sources.
pub mod Executed
mod Samples
use cirewind.Base.{
  ℕ, ◌≡◌, refl, sym, ap, ◌∙◌, Bool, true, false, ◌&&◌, ◌||◌, not, none, some, Option, List, [], ltb,
  length, is_nil, is_some, ◌==◌, Text, text, same_text, arith, Checked, Result, ok, err, ◌>>◌,
  passes, passes->>, passes-refuse_if, refuse_if, if◌then◌else◌,
}
use cirewind.Base.Int.{ℤ}
use cirewind.Model.Texts.{
  valid_utf8, has_ascii_control, valid_machine_name, valid_bounded_identity_text, validate_sha256,
}
use cirewind.Model.Paths.{has_prefix, has_backslash, clean, validate_repository_slug}
use cirewind.Model.Ids.{
  validate_runtime_observation_id, GitObjectId, PackageDigest, validate_git_object_id,
  validate_package_digest,
}
use cirewind.Model.Identities.{
  JobExecutionIdentity, StepIdentity, same_job, validate_job_execution, validate_step, check_some,
}
use cirewind.Model.Times.{EventInterval, validate_event_interval}
use cirewind.Model.Vocabulary.{
  ObservationKind, kind_valid, supports_executed, lifecycle_started, lifecycle_completed,
  condition_skipped, resolution_observed, download_announced, preparation_completed,
  preparation_failed,
}
use cirewind.Model.Coverage.{validate_sorted_evidence_ids}

pub record SourceSpan : Type 0 where
  pub byte_start : ℕ
  pub byte_end : ℕ
  pub line_start : ℕ
  pub line_end : ℕ

abbrev same_bool : Bool → Bool → Bool
same_bool true b = b
same_bool false b = not b

unfoldable pub validate_span : SourceSpan → Checked
validate_span s =
    refuse_if (ltb s.byte_end s.byte_start) "source-span byte end precedes start"
    >> refuse_if (not (same_bool (s.line_start == 0) (s.line_end == 0)))
        "source-span line bounds must both be present or absent"
    >> refuse_if (not (s.line_start == 0) && ltb s.line_end s.line_start)
        "source-span line end precedes start"

pub record RuntimeActionObservation : Type 0 where
  pub id : Text
  pub kind : ObservationKind
  pub execution : JobExecutionIdentity
  pub step : Option StepIdentity
  pub action_repository : Text
  pub action_subpath : Text
  pub declared_ref : Text
  pub source_object_id : Option GitObjectId
  pub package_digest : Option PackageDigest
  pub immutable_version : Text
  pub event_time : EventInterval
  pub source_evidence_ids : List Text
  pub source_span : SourceSpan
  pub extractor_name : Text
  pub extractor_version : Text
  pub ruleset_sha256 : Text

abbrev is_unsafe_subpath : Text → Bool
is_unsafe_subpath p =
    ltb 4096 (length p)
    || not (valid_utf8 p)
    || has_ascii_control p
    || has_backslash p
    || has_prefix p (text "/")
    || not (same_text (clean p) p)
    || has_prefix p (text "../")

abbrev is_unsafe_text : Text → ℕ → Bool
is_unsafe_text t max = ltb max (length t) || not (valid_utf8 t) || has_ascii_control t

abbrev pub requires_step : ObservationKind → Bool
requires_step lifecycle_started = true
requires_step lifecycle_completed = true
requires_step condition_skipped = true
requires_step _ = false

abbrev pub requires_identity : ObservationKind → Bool
requires_identity resolution_observed = true
requires_identity download_announced = true
requires_identity preparation_completed = true
requires_identity preparation_failed = true
requires_identity _ = false

-- The step, if there is one, against the execution; and the checks that the kind calls for.
unfoldable pub validate_step_of : RuntimeActionObservation → Checked
unfolding validate_step
validate_step_of o =
    check_some
      (λ step.
        validate_step step
        >> refuse_if (not (same_job step.job o.execution))
            "runtime observation step belongs to a different execution")
      o.step
    >> refuse_if (requires_step o.kind && not (is_some o.step))
        "step lifecycle observation requires exact step identity"
    >> refuse_if
        (requires_identity o.kind
          && not (is_some o.source_object_id)
          && not (is_some o.package_digest))
        "resolution or preparation observation requires an exact source object or typed package digest"

unfoldable pub validate_head : RuntimeActionObservation → Checked
unfolding validate_job_execution validate_repository_slug valid_utf8 has_ascii_control has_prefix
    clean same_text
validate_head o =
    validate_runtime_observation_id o.id
    >> refuse_if (not (kind_valid o.kind)) "invalid runtime observation kind"
    >> validate_job_execution o.execution
    >> validate_repository_slug o.action_repository
    >> refuse_if (not (is_nil o.action_subpath) && is_unsafe_subpath o.action_subpath)
        "runtime Action subpath is unsafe"
    >> refuse_if (is_unsafe_text o.declared_ref 1024) "runtime declared ref is unsafe"
    >> refuse_if (is_unsafe_text o.immutable_version 256) "immutable package version is unsafe"

unfoldable pub validate_tail : RuntimeActionObservation → Checked
unfolding validate_git_object_id validate_package_digest validate_event_interval validate_span
    validate_sorted_evidence_ids valid_machine_name valid_bounded_identity_text validate_sha256
validate_tail o =
    check_some validate_git_object_id o.source_object_id
    >> check_some validate_package_digest o.package_digest
    >> validate_event_interval o.event_time
    >> refuse_if (is_nil o.source_evidence_ids) "runtime observation requires source evidence"
    >> validate_sorted_evidence_ids o.source_evidence_ids
    >> validate_span o.source_span
    >> refuse_if
        (not (valid_machine_name o.extractor_name 128)
          || not (valid_bounded_identity_text o.extractor_version 128))
        "runtime observation extractor identity is invalid"
    >> validate_sha256 o.ruleset_sha256 "runtime ruleset SHA-256"

unfoldable pub validate_runtime_observation : RuntimeActionObservation → Checked
unfolding validate_head validate_step_of validate_tail
validate_runtime_observation o = validate_head o >> validate_step_of o >> validate_tail o
