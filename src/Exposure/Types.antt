-- ===== src/Exposure/Types.antt =====
-- internal/exposure/exposure.go: the inputs and results.
use cirewind.Base.{Bool, List, Text, text}
use cirewind.Base.Int.{ℤ}
use cirewind.Base.Time.{Time}

-- `Basis` is a string type with two named constants.
abbrev pub basis_runtime_observed : Text
basis_runtime_observed = text "runtime-observed"

pub record Permission : Type 0 where
  pub name : Text
  pub access : Text
  pub basis : Text
  pub evidence_ids : List Text

pub data SecretFlowKind : Type 0 where
  secret_exists_metadata secret_referenced_by_job secret_passed_to_step : SecretFlowKind
  reusable_secret_mapped reusable_secret_inherited environment_secret_eligible : SecretFlowKind
  other : Text → SecretFlowKind

abbrev pub flow_kind_text : SecretFlowKind → Text
flow_kind_text secret_exists_metadata = text "SECRET_EXISTS_METADATA"
flow_kind_text secret_referenced_by_job = text "SECRET_REFERENCED_BY_JOB"
flow_kind_text secret_passed_to_step = text "SECRET_PASSED_TO_STEP"
flow_kind_text reusable_secret_mapped = text "REUSABLE_SECRET_MAPPED"
flow_kind_text reusable_secret_inherited = text "REUSABLE_SECRET_INHERITED"
flow_kind_text environment_secret_eligible = text "ENVIRONMENT_SECRET_ELIGIBLE"
flow_kind_text (other v) = v

pub record SecretFlow : Type 0 where
  pub name : Text
  pub kind : SecretFlowKind
  pub destination_step : Text
  pub call_hop : ℤ
  pub evidence_ids : List Text

pub record EnvironmentGate : Type 0 where
  pub name : Text
  pub targeted : Bool
  pub crossed : Bool
  pub job_started : Bool
  pub evidence_ids : List Text

pub record Runner : Type 0 where
  pub classification : Text
  pub id : ℤ
  pub name : Text
  pub group : Text
  pub labels : List Text
  pub evidence_ids : List Text

pub record StepInterval : Type 0 where
  pub start : Time
  pub end : Time

pub record SynchronizationEdge : Type 0 where
  pub from_step : Text
  pub to_step : Text
  pub evidence_ids : List Text

pub record Resource : Type 0 where
  pub kind : Text
  pub name : Text
  pub event_time : Time
  pub direct_run : Bool
  pub direct_job : Bool
  pub direct_step_key : Text
  pub evidence_ids : List Text

-- `Analyze` reads neither `StepIntervals` nor `Synchronization`.
pub record Input : Type 0 where
  pub affected_step_key : Text
  pub affected_lifecycle_started : Bool
  pub job_started : Bool
  pub permissions : List Permission
  pub secret_flows : List SecretFlow
  pub environment : EnvironmentGate
  pub runner : Runner
  pub affected_interval : StepInterval
  pub step_intervals : List (Text × StepInterval)
  pub synchronization : List SynchronizationEdge
  pub resources : List Resource

pub record Fact : Type 0 where
  pub kind : Text
  pub name : Text
  pub capability : Text
  pub basis : Text
  pub conclusion : Text
  pub evidence_ids : List Text

-- `Result`
pub record Reach : Type 0 where
  pub credentials : List Fact
  pub resources : List Fact
