-- ===== src/Match/Soundness.antt =====
-- What a decision of `Derive` rests on, and what `ValidateEvidenceSupport` makes of it.
use cirewind.Base.{
  ◌≡◌, refl, ◌⊎◌, ◌↔◌, Bool, true, false, ◌&&◌, ◌||◌, not, is_nil, Result, ok, err, Option, none,
  some, arith,
}
use cirewind.Model.States.{
  FindingState, confirmed_executed, declared_at_run_sha, run_in_window_mutable_ref,
  no_match_confirmed, unknown_evidence_gap, ProvenanceLevel, l4_certain, l3_strong, l2_probable,
  l1_possible, l0_unknown,
}
use cirewind.Match.Derive.{Candidate, Decision, decide, derive, validate_evidence_support}

-- The level that a state is reported with.
abbrev pub level_of : FindingState → ProvenanceLevel
level_of declared_at_run_sha = l3_strong
level_of run_in_window_mutable_ref = l2_probable
level_of FindingState.potential_transitive = l1_possible
level_of FindingState.current_reference_only = l1_possible
level_of unknown_evidence_gap = l0_unknown
level_of _ = l4_certain

abbrev pub state_of : Result Decision → Option FindingState
state_of (ok d) = some d.state
state_of (err e) = none

-- None of the tests of `Derive` that report something else than a gap or an absence applies: no
-- exact run-time identity together with a lifecycle or a completed preparation, no exact called
-- workflow, no exact declaration, no mutable reference in its window (unless the run-time identity
-- is known to be good), no potential transitive and no current reference; and no download was only
-- announced. An exact run-time identity alone, with no lifecycle and no preparation, is allowed.
abbrev pub reaches_no_rule : Candidate → Bool
reaches_no_rule c =
    not (
      c.same_attempt_exact_runtime
      && (c.lifecycle_completed || c.lifecycle_started || c.preparation_completed))
    && not c.exact_called_workflow
    && not c.historical_exact_declared
    && not (c.historical_mutable_ref && c.run_event_in_window && not c.known_good_exact_runtime)
    && not c.potential_transitive
    && not c.current_reference_only
    && not c.download_announced_only

module _ (c : Candidate) where
  executed_needs :
      state_of (derive c) ≡ some confirmed_executed
      → (c.material_contradiction ≡ false)
        × (c.same_attempt_exact_runtime ≡ true)
        × (c.known_good_exact_runtime ≡ false)
        × ((c.lifecycle_completed || c.lifecycle_started) ≡ true)
  unfolding derive
  executed_needs h = ground arith

  executed_given :
      (c.material_contradiction ≡ false)
        × (c.same_attempt_exact_runtime ≡ true)
        × (c.known_good_exact_runtime ≡ false)
        × ((c.lifecycle_completed || c.lifecycle_started) ≡ true)
      → state_of (derive c) ≡ some confirmed_executed
  unfolding derive
  executed_given h = ground arith

  -- The code reports CONFIRMED_EXECUTED exactly when no material contradiction is there, the
  -- affected identity was resolved at run time in the same attempt, it is not known to be good,
  -- and its lifecycle started or completed.
  pub executed_iff :
      (state_of (derive c) ≡ some confirmed_executed)
      ↔ (c.material_contradiction ≡ false)
        × (c.same_attempt_exact_runtime ≡ true)
        × (c.known_good_exact_runtime ≡ false)
        × ((c.lifecycle_completed || c.lifecycle_started) ≡ true)
  executed_iff = (executed_needs, executed_given)

  no_match_needs :
      state_of (derive c) ≡ some no_match_confirmed
      → (c.material_contradiction ≡ false)
        × (c.required_coverage_closed ≡ true)
        × (c.material_evidence_gap ≡ false)
        × (((c.known_good_exact_runtime && c.same_attempt_exact_runtime) ≡ true)
            ⊎ ((reaches_no_rule c && not (is_nil c.evidence_ids) && not (is_nil c.coverage_ids))
                ≡ true))
  unfolding derive
  no_match_needs h = ground arith

  no_match_given :
      (c.material_contradiction ≡ false)
        × (c.required_coverage_closed ≡ true)
        × (c.material_evidence_gap ≡ false)
        × (((c.known_good_exact_runtime && c.same_attempt_exact_runtime) ≡ true)
            ⊎ ((reaches_no_rule c && not (is_nil c.evidence_ids) && not (is_nil c.coverage_ids))
                ≡ true))
      → state_of (derive c) ≡ some no_match_confirmed
  unfolding derive
  no_match_given h = ground arith

  -- The code reports NO_MATCH_CONFIRMED exactly when nothing contradicts, the required coverage is
  -- closed, there is no material gap, and either the exact run-time identity is known to be good,
  -- or evidence and coverage ids are given and there is none of these: an exact run-time identity
  -- with a started or completed lifecycle or a completed preparation, an exact called workflow, an
  -- exact declaration, a mutable reference in its window whose run-time identity is not known to
  -- be good, a potential transitive reference, a current reference, a download only announced.
  pub no_match_iff :
      (state_of (derive c) ≡ some no_match_confirmed)
      ↔ (c.material_contradiction ≡ false)
        × (c.required_coverage_closed ≡ true)
        × (c.material_evidence_gap ≡ false)
        × (((c.known_good_exact_runtime && c.same_attempt_exact_runtime) ≡ true)
            ⊎ ((reaches_no_rule c && not (is_nil c.evidence_ids) && not (is_nil c.coverage_ids))
                ≡ true))
  no_match_iff = (no_match_needs, no_match_given)

module _ (c : Candidate) (d : Decision) (derived : derive c ≡ ok d) where
  -- A decision's provenance level is the one of its state: certain for the confirmed states, the
  -- contradiction and the confirmed absence, lower for the rest, and unknown for the gap.
  pub derive-level : d.provenance ≡ level_of d.state
  unfolding derive
  derive-level = ground arith

  -- Whatever `Derive` decides passes `ValidateEvidenceSupport`, where a completed lifecycle is
  -- also marked as started and the candidate has evidence and coverage ids.
  pub derive-supported :
      (c.lifecycle_completed ≡ true → c.lifecycle_started ≡ true)
      → is_nil c.evidence_ids ≡ false
      → is_nil c.coverage_ids ≡ false
      → validate_evidence_support c d ≡ none
  unfolding derive validate_evidence_support
  derive-supported h e f = ground arith

abbrev executed_decision : Decision
executed_decision =
    decide confirmed_executed l4_certain
      "The exact affected Action identity was resolved for this run attempt and its corresponding lifecycle demonstrably started."

-- A candidate with the exact identity in the same attempt, not known to be good and contradicted by
-- nothing, whose lifecycle is completed but not marked as started: `Derive` returns a decision, its
-- state is CONFIRMED_EXECUTED, and `ValidateEvidenceSupport` refuses it for the same candidate.
pub completed_only_unsupported :
    (c : Candidate)
    → c.material_contradiction ≡ false
    → c.same_attempt_exact_runtime ≡ true
    → c.known_good_exact_runtime ≡ false
    → c.lifecycle_completed ≡ true
    → c.lifecycle_started ≡ false
    → (d : Decision) × (derive c ≡ ok d)
      × (d.state ≡ confirmed_executed)
      × (validate_evidence_support c d
          ≡ some "CONFIRMED_EXECUTED requires same-attempt exact identity and lifecycle start")
unfolding derive validate_evidence_support
completed_only_unsupported c a b g e f = (executed_decision, ground arith, refl, ground arith)
