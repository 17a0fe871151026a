-- ===== src/Match/Samples.antt =====
-- Candidates for the rules of derive.go.
use cirewind.Base.{
  ◌≡◌, ◌↔◌, ◌⊎◌, refl, true, false, ◌&&◌, ◌||◌, not, [], ◌∷◌, is_nil, ok, none, some, text,
}
use cirewind.Model.States.{confirmed_executed, no_match_confirmed, l4_certain}
use cirewind.Match.Derive.{Candidate, Decision, decide, derive, validate_evidence_support}
use cirewind.Match.Soundness.{
  state_of, reaches_no_rule, executed_iff, no_match_iff, derive-supported,
  completed_only_unsupported,
}

abbrev quiet : Candidate
quiet = record {
  same_attempt_exact_runtime = false;
  preparation_completed = false;
  lifecycle_started = false;
  lifecycle_completed = false;
  download_announced_only = false;
  exact_called_workflow = false;
  historical_exact_declared = false;
  historical_mutable_ref = false;
  run_event_in_window = false;
  potential_transitive = false;
  current_reference_only = false;
  known_good_exact_runtime = false;
  material_contradiction = false;
  required_coverage_closed = true;
  material_evidence_gap = false;
  evidence_ids = text "ev1:1" ∷ [];
  coverage_ids = text "cova1:2" ∷ [];
}

abbrev ran : Candidate
ran = record quiet {
  same_attempt_exact_runtime = true;
  lifecycle_started = true;
  lifecycle_completed = true;
}

abbrev completed_only : Candidate
completed_only = record ran { lifecycle_started = false }

abbrev executed : Decision
executed =
    decide confirmed_executed l4_certain
      "The exact affected Action identity was resolved for this run attempt and its corresponding lifecycle demonstrably started."

derive-ran : derive ran ≡ ok executed
unfolding derive
derive-ran = refl

executed_iff_example :
    (state_of (derive ran) ≡ some confirmed_executed)
    ↔ (ran.material_contradiction ≡ false)
      × (ran.same_attempt_exact_runtime ≡ true)
      × (ran.known_good_exact_runtime ≡ false)
      × ((ran.lifecycle_completed || ran.lifecycle_started) ≡ true)
executed_iff_example = executed_iff ran

no_match_iff_example :
    (state_of (derive quiet) ≡ some no_match_confirmed)
    ↔ (quiet.material_contradiction ≡ false)
      × (quiet.required_coverage_closed ≡ true)
      × (quiet.material_evidence_gap ≡ false)
      × (((quiet.known_good_exact_runtime && quiet.same_attempt_exact_runtime) ≡ true)
          ⊎ ((reaches_no_rule quiet
                && not (is_nil quiet.evidence_ids)
                && not (is_nil quiet.coverage_ids))
              ≡ true))
no_match_iff_example = no_match_iff quiet

derive-supported_example : validate_evidence_support ran executed ≡ none
derive-supported_example = derive-supported ran executed derive-ran (λ h. refl) refl refl

completed_only_unsupported_example :
    (d : Decision) × (derive completed_only ≡ ok d)
    × (d.state ≡ confirmed_executed)
    × (validate_evidence_support completed_only d
        ≡ some "CONFIRMED_EXECUTED requires same-attempt exact identity and lifecycle start")
completed_only_unsupported_example =
    completed_only_unsupported completed_only refl refl refl refl refl
