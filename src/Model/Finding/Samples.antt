-- ===== src/Model/Finding/Samples.antt =====
-- A finding without a match, on one unit that was collected.
use cirewind.Base.{◌≡◌, refl, true, none, some, [], ◌∷◌, Text, text, ok, arith}
use cirewind.Base.Int.{pos}
use cirewind.Base.Order.{text_less}
use cirewind.Model.States.{no_match_confirmed, l4_certain}
use cirewind.Model.Ids.{validate_versioned_id, validate_opaque_id}
use cirewind.Model.Times.{Instant, SourcePrecision, exact, api_field}
use cirewind.Model.Vocabulary.{collected, workflow_run}
use cirewind.Model.Coverage.{CoverageUnit, CoverageAssessment}
use cirewind.Model.Subjects.{
  IncidentReference, FindingSubject, Proposition, DerivationReference, items,
}
use cirewind.Model.Finding.{Finding, validate_finding_coverage}
use cirewind.Model.Finding.Closure.{IsSettled, finding_without_match-IsSettled}

abbrev digest : Text
digest = text "0123456789abcdef0123456789abcdef0123456789abcdef0123456789abcdef"

abbrev unit : CoverageUnit
unit = record {
  id = text "cov1:0123456789abcdef0123456789abcdef0123456789abcdef0123456789abcdef";
  kind = workflow_run;
  scope = record {
    repository_id = some (pos 7);
    workflow_path = none;
    run_id = some (pos 42);
    run_attempt = none;
    job_id = none;
    step_key = [];
  };
  logical_key = text "run/42";
  required_for_negative = true;
}

abbrev assessment : CoverageAssessment
assessment = record {
  id = text "cova1:0123456789abcdef0123456789abcdef0123456789abcdef0123456789abcdef";
  unit_id = unit.id;
  status = collected;
  expected_count = some 1;
  observed_count = 1;
  gap = none;
  evidence_ids = text "ev1:0123456789abcdef0123456789abcdef0123456789abcdef0123456789abcdef" ∷ [];
}

abbrev collected_at : Instant
collected_at = record { time = 9223372100000000000_000000000; is_utc = true }

abbrev incident : IncidentReference
incident = record {
  id = text "incident-1";
  api_version = text "v1";
  pack_version = text "1.0.0";
  source_pack_sha256 = digest;
  canonical_pack_sha256 = digest;
}

abbrev subject : FindingSubject
subject = record {
  repository = record { id = pos 7; name = text "owner/name" };
  workflow = record {
    path = some (text ".github/workflows/ci.yml");
    definition_object_id = none;
    unknown_reason = [];
  };
  run_id = some (pos 42);
  run_attempt = some 1;
  job_id = none;
  step = none;
}

abbrev proposition : Proposition
proposition = record {
  kind = text "action-executed";
  action_source_object_id = none;
  package_digest = none;
  called_workflow_object_id = none;
  attributes = some [];
}

abbrev derivation : DerivationReference
derivation = record {
  rule_id = text "rule-1";
  rule_version = text "1";
  first_produced_analysis_id = text "analysis-1";
  first_produced_engine_version = text "0.1";
  canonical_inputs_sha256 = digest;
}

abbrev finding : Finding
finding = record {
  schema_version = text "cirewind.findings/v1alpha1";
  finding_id = text "find1:0123456789abcdef0123456789abcdef0123456789abcdef0123456789abcdef";
  finding_revision_id =
      text "frev1:0123456789abcdef0123456789abcdef0123456789abcdef0123456789abcdef";
  incident = incident;
  indicator_id = text "indicator-1";
  subject = subject;
  state = no_match_confirmed;
  provenance_level = l4_certain;
  conclusion = text "nothing matched";
  proposition = proposition;
  event_time = record {
    start = some collected_at;
    end = none;
    bounds = none;
    precision = SourcePrecision.second;
    approximation = exact;
    basis = api_field;
  };
  evidence_object_ids =
      some (text "ev1:0123456789abcdef0123456789abcdef0123456789abcdef0123456789abcdef" ∷ []);
  assumptions = some [];
  evidence_gaps = some [];
  contradictory = some [];
  credential_exposure = some [];
  resource_exposure = some [];
  remediation_guidance = some [];
  collection_coverage = some (assessment.id ∷ []);
  derivation = derivation;
  collection_time = collected_at;
  supersedes_revision_id = none;
}

accepts : validate_finding_coverage finding (unit ∷ []) (assessment ∷ []) ≡ ok tt
unfolding validate_finding_coverage validate_versioned_id validate_opaque_id text_less
accepts = refl

finding_without_match-IsSettled_example :
    IsSettled (unit ∷ []) (assessment ∷ []) (items finding.collection_coverage)
finding_without_match-IsSettled_example =
    finding_without_match-IsSettled finding (unit ∷ []) (assessment ∷ []) refl (omega arith) accepts
