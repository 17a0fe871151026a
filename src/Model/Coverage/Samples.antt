-- ===== src/Model/Coverage/Samples.antt =====
-- Two units, one with a gap that matters.
use cirewind.Base.{◌≡◌, refl, true, false, none, some, List, [], ◌∷◌, Text, text, ok, arith, passes}
use cirewind.Base.Int.{pos}
use cirewind.Base.Order.{text_less}
use cirewind.Model.Ids.{validate_evidence_id, validate_versioned_id}
use cirewind.Model.Vocabulary.{collected, gap, workflow_run, attempt_log, forbidden}
use cirewind.Model.Coverage.{
  CoverageScope, CoverageUnit, CoverageAssessment, validate_sorted_evidence_ids, sort_evidence_ids,
}
use cirewind.Model.Coverage.Reconcile.{CoverageSummary, reconcile_coverage}
use cirewind.Model.Coverage.Opened.{IsReconciled}
use cirewind.Model.Coverage.Closed.{reconcile_coverage_lem}
use cirewind.Model.Coverage.Canonical.{all_accepted, sort_evidence_ids_lem, sort_evidence_ids_fixed}

abbrev scope : CoverageScope
scope = record {
  repository_id = some (pos 7);
  workflow_path = some (text ".github/workflows/ci.yml");
  run_id = some (pos 42);
  run_attempt = none;
  job_id = none;
  step_key = [];
}

abbrev run_unit : CoverageUnit
run_unit = record {
  id = text "cov1:0123456789abcdef0123456789abcdef0123456789abcdef0123456789abcdef";
  kind = workflow_run;
  scope = scope;
  logical_key = text "run/42";
  required_for_negative = true;
}

abbrev log_unit : CoverageUnit
log_unit = record {
  id = text "cov1:abcdef0123456789abcdef0123456789abcdef0123456789abcdef0123456789";
  kind = attempt_log;
  scope = scope;
  logical_key = text "run/42/log";
  required_for_negative = true;
}

abbrev evidence_id : Text
evidence_id = text "ev1:0123456789abcdef0123456789abcdef0123456789abcdef0123456789abcdef"

abbrev other_evidence_id : Text
other_evidence_id = text "ev1:abcdef0123456789abcdef0123456789abcdef0123456789abcdef0123456789"

abbrev run_assessment : CoverageAssessment
run_assessment = record {
  id = text "cova1:0123456789abcdef0123456789abcdef0123456789abcdef0123456789abcdef";
  unit_id = run_unit.id;
  status = collected;
  expected_count = some 1;
  observed_count = 1;
  gap = none;
  evidence_ids = evidence_id ∷ [];
}

abbrev log_assessment : CoverageAssessment
log_assessment = record {
  id = text "cova1:abcdef0123456789abcdef0123456789abcdef0123456789abcdef0123456789";
  unit_id = log_unit.id;
  status = gap;
  expected_count = none;
  observed_count = 0;
  gap = some (record {
    reason = forbidden;
    retryable = false;
    material = true;
    permission_related = some true;
    sanitized_message = text "no access to logs";
  });
  evidence_ids = [];
}

abbrev units : List CoverageUnit
units = run_unit ∷ log_unit ∷ []

abbrev assessments : List CoverageAssessment
assessments = log_assessment ∷ run_assessment ∷ []

abbrev summary : CoverageSummary
summary = record {
  expected = 2;
  collected = 1;
  not_applicable = 0;
  gaps = 1;
  open_units = 0;
  material_gaps = 1;
}

reconciles : reconcile_coverage units assessments true ≡ ok summary
unfolding reconcile_coverage validate_versioned_id
reconciles = refl

reconcile_coverage_lem_example :
    IsReconciled units assessments summary × (true ≡ true → summary.open_units ≡ 0)
reconcile_coverage_lem_example =
    reconcile_coverage_lem units assessments true summary (omega arith) reconciles

sort_evidence_ids_lem_example :
    passes (validate_sorted_evidence_ids (sort_evidence_ids (evidence_id ∷ other_evidence_id ∷ [])))
    ≡ all_accepted validate_evidence_id (evidence_id ∷ other_evidence_id ∷ [])
sort_evidence_ids_lem_example = sort_evidence_ids_lem (evidence_id ∷ other_evidence_id ∷ [])

ascending : passes (validate_sorted_evidence_ids (evidence_id ∷ other_evidence_id ∷ [])) ≡ true
unfolding validate_sorted_evidence_ids validate_versioned_id text_less
ascending = refl

sort_evidence_ids_fixed_example :
    sort_evidence_ids (evidence_id ∷ other_evidence_id ∷ []) ≡ evidence_id ∷ other_evidence_id ∷ []
sort_evidence_ids_fixed_example =
    sort_evidence_ids_fixed (evidence_id ∷ other_evidence_id ∷ []) ascending
