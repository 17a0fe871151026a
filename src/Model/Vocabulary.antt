-- ===== src/Model/Vocabulary.antt =====
-- internal/model/enums.go: the vocabularies of coverage and of runtime observations. `other` holds
-- any string that is none of the constants.
use cirewind.Base.{Bool, true, false, ◌&&◌, not, [], Text}

pub data RuntimeStage : Type 0 where
  declared resolved downloaded step_started step_completed runtime_ioc_observed : RuntimeStage
  other : Text → RuntimeStage

pub data ObservationKind : Type 0 where
  declared resolution_observed download_announced preparation_completed : ObservationKind
  preparation_failed condition_skipped lifecycle_started lifecycle_completed : ObservationKind
  runtime_ioc_observed : ObservationKind
  other : Text → ObservationKind

-- The list that `Valid` searches has every constant.
abbrev pub kind_valid : ObservationKind → Bool
kind_valid (ObservationKind.other v) = false
kind_valid _ = true

-- `Stage`; `other []` is the empty string.
unfoldable pub stage : ObservationKind → RuntimeStage
stage ObservationKind.declared = RuntimeStage.declared
stage resolution_observed = resolved
stage download_announced = resolved
stage preparation_failed = resolved
stage preparation_completed = downloaded
stage condition_skipped = RuntimeStage.declared
stage lifecycle_started = step_started
stage lifecycle_completed = step_completed
stage ObservationKind.runtime_ioc_observed = RuntimeStage.runtime_ioc_observed
stage (ObservationKind.other v) = RuntimeStage.other []

unfoldable pub supports_downloaded : ObservationKind → Bool
supports_downloaded preparation_completed = true
supports_downloaded lifecycle_started = true
supports_downloaded lifecycle_completed = true
supports_downloaded _ = false

unfoldable pub supports_executed : ObservationKind → Bool
supports_executed lifecycle_started = true
supports_executed lifecycle_completed = true
supports_executed _ = false

pub data CoverageStatus : Type 0 where
  expected collected not_applicable gap : CoverageStatus
  other : Text → CoverageStatus

abbrev pub status_valid : CoverageStatus → Bool
status_valid (CoverageStatus.other v) = false
status_valid _ = true

abbrev pub is_gap : CoverageStatus → Bool
is_gap gap = true
is_gap _ = false

abbrev is_expected : CoverageStatus → Bool
is_expected expected = true
is_expected _ = false

-- `Terminal`
unfoldable pub is_terminal : CoverageStatus → Bool
is_terminal s = not (is_expected s) && status_valid s

pub data CoverageKind : Type 0 where
  repository_visibility run_partition workflow_run run_attempt job attempt_log : CoverageKind
  job_log workflow_definition action_definition enrichment parser_grammar : CoverageKind
  searchable_literal : CoverageKind
  other : Text → CoverageKind

abbrev pub coverage_kind_valid : CoverageKind → Bool
coverage_kind_valid (CoverageKind.other v) = false
coverage_kind_valid _ = true

pub data GapReason : Type 0 where
  unauthorized forbidden not_found retention_or_deletion rate_limited secondary_limit : GapReason
  transient_network redirect_expired size_limit file_count_limit malformed_archive : GapReason
  malformed_yaml unsupported_grammar ambiguous_correlation dynamic_reference : GapReason
  density_ceiling live_state_race cancelled integrity_failure evidence_truncated : GapReason
  historical_content_gone : GapReason
  other : Text → GapReason

abbrev pub reason_valid : GapReason → Bool
reason_valid (GapReason.other v) = false
reason_valid _ = true
