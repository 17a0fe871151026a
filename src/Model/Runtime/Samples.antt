-- ===== src/Model/Runtime/Samples.antt =====
-- A step that started, as a runner's log shows it, with its times and digests.
use cirewind.Base.{
  ◌≡◌, refl, true, none, some, [], ◌∷◌, Text, text, passes, ℕ, ◌+◌, length, ◌==◌, ◌&&◌,
}
use cirewind.Base.Int.{pos}
use cirewind.Base.Order.{text_less}
use cirewind.Model.Ids.{validate_versioned_id}
use cirewind.Model.Identities.{JobExecutionIdentity, StepIdentity, main}
use cirewind.Model.Times.{
  Instant, EventInterval, SourcePrecision, exact, log_timestamp, bounds_closed_open,
  validate_event_interval,
}
use cirewind.Model.Vocabulary.{lifecycle_started, supports_executed}
use cirewind.Model.Texts.{all}
use cirewind.Model.Ids.{
  GitObjectId, sha1, algorithm_valid, expected_hex_length, is_lower_hex, validate_git_object_id,
}
use cirewind.Model.Hex.{validate_git_object_id_lem}
use cirewind.Model.Intervals.{IsEventTime, IsEventTime-accepted}
use cirewind.Model.Runtime.{RuntimeActionObservation, validate_runtime_observation}
use cirewind.Model.Runtime.Executed.{IsStepOf, executed-IsStepOf}

abbrev execution : JobExecutionIdentity
execution = record { repository_id = pos 7; run_id = pos 42; run_attempt = 1; job_id = pos 9 }

abbrev step : StepIdentity
step = record {
  job = execution;
  timeline_record_id = [];
  api_step_number = some (pos 3);
  ast_ordinal = none;
  lifecycle_phase = main;
  occurrence = 1;
}

abbrev instant : ℕ → Instant
instant n = record { time = 9223372100000000000_000000000 + n; is_utc = true }

abbrev event_time : EventInterval
event_time = record {
  start = some (instant 0);
  end = some (instant 5);
  bounds = some bounds_closed_open;
  precision = SourcePrecision.second;
  approximation = exact;
  basis = log_timestamp;
}

abbrev digest : Text
digest = text "0123456789abcdef0123456789abcdef0123456789abcdef0123456789abcdef"

abbrev observation : RuntimeActionObservation
observation = record {
  id = text "rtobs1:0123456789abcdef0123456789abcdef0123456789abcdef0123456789abcdef";
  kind = lifecycle_started;
  execution = execution;
  step = some step;
  action_repository = text "actions/checkout";
  action_subpath = [];
  declared_ref = text "v4";
  source_object_id = none;
  package_digest = none;
  immutable_version = [];
  event_time = event_time;
  source_evidence_ids =
      text "ev1:0123456789abcdef0123456789abcdef0123456789abcdef0123456789abcdef" ∷ [];
  source_span = record { byte_start = 0; byte_end = 80; line_start = 1; line_end = 1 };
  extractor_name = text "runner-log";
  extractor_version = text "1";
  ruleset_sha256 = digest;
}

accepted : passes (validate_runtime_observation observation) ≡ true
unfolding validate_runtime_observation validate_versioned_id text_less
accepted = refl

executed-IsStepOf_example : IsStepOf observation.execution observation.step
unfolding supports_executed
executed-IsStepOf_example = executed-IsStepOf observation accepted refl

timed : passes (validate_event_interval event_time) ≡ true
unfolding validate_event_interval
timed = refl

IsEventTime-accepted_example :
    IsEventTime event_time event_time.start event_time.end event_time.bounds
IsEventTime-accepted_example = IsEventTime-accepted event_time timed

abbrev long_id : GitObjectId
long_id = record { algorithm = sha1; value = digest }

validate_git_object_id_lem_example : passes (validate_git_object_id long_id) ≡ (
    algorithm_valid sha1 && (length digest == expected_hex_length sha1 && all is_lower_hex digest))
validate_git_object_id_lem_example = validate_git_object_id_lem long_id
