-- ===== src/Match/Derive.antt =====
-- internal/match/derive.go. Evidence and coverage ids are opaque here: the code counts them.
use cirewind.Base.{
  String, Bool, ◌&&◌, ◌||◌, not, List, if◌then◌else◌, is_nil, Result, ok, err, Text, Option, none,
  some,
}
use cirewind.Model.States.{
  FindingState, confirmed_executed, confirmed_downloaded, confirmed_called_workflow,
  declared_at_run_sha, run_in_window_mutable_ref, no_match_confirmed, unknown_evidence_gap,
  contradictory_evidence, ProvenanceLevel, l4_certain, l3_strong, l2_probable, l1_possible,
  l0_unknown, same_state, state_valid, level_valid,
}

pub record Candidate : Type 0 where
  pub same_attempt_exact_runtime : Bool
  pub preparation_completed : Bool
  pub lifecycle_started : Bool
  pub lifecycle_completed : Bool
  pub download_announced_only : Bool
  pub exact_called_workflow : Bool
  pub historical_exact_declared : Bool
  pub historical_mutable_ref : Bool
  pub run_event_in_window : Bool
  pub potential_transitive : Bool
  pub current_reference_only : Bool
  pub known_good_exact_runtime : Bool
  pub material_contradiction : Bool
  pub required_coverage_closed : Bool
  pub material_evidence_gap : Bool
  pub evidence_ids : List Text
  pub coverage_ids : List Text

pub record Decision : Type 0 where
  pub state : FindingState
  pub provenance : ProvenanceLevel
  pub conclusion : String

abbrev pub decide : FindingState → ProvenanceLevel → String → Decision
decide s p text = record { state = s; provenance = p; conclusion = text }

unfoldable pub evidence_gap : Decision
evidence_gap =
    decide unknown_evidence_gap l0_unknown
      "Required evidence is missing, inaccessible, incomplete, or not safely correlated; no compromise or clean-bill conclusion is supported."

-- The tests of `Derive` in their order, after the first one has set `LifecycleStarted`.
unfoldable pub derive : Candidate → Result Decision
unfolding evidence_gap
derive c =
    let started = c.lifecycle_completed || c.lifecycle_started in
    if c.material_contradiction
    then ok (
        decide contradictory_evidence l4_certain
          "Material runtime, API, or historical-definition evidence disagrees; preserve both accounts and review the evidence chain.")
    else if c.known_good_exact_runtime && c.same_attempt_exact_runtime
    then (if c.material_evidence_gap || not c.required_coverage_closed
        then ok evidence_gap
        else ok (
            decide no_match_confirmed l4_certain
              "Exact runtime identity was known-good and the required retained evidence was completely examined for this subject."))
    else if c.same_attempt_exact_runtime && started
    then ok (
        decide confirmed_executed l4_certain
          "The exact affected Action identity was resolved for this run attempt and its corresponding lifecycle demonstrably started.")
    else if c.same_attempt_exact_runtime && c.preparation_completed
    then ok (
        decide confirmed_downloaded l4_certain
          "The exact affected Action identity completed runner preparation, but execution was not demonstrated.")
    else if c.exact_called_workflow
    then ok (
        decide confirmed_called_workflow l4_certain
          "GitHub recorded the exact affected reusable-workflow identity for this run attempt; this does not by itself prove every callee step executed.")
    else if c.historical_exact_declared
    then ok (
        decide declared_at_run_sha l3_strong
          "The historical workflow definition at the relevant workflow commit declared the exact affected immutable identity; runtime execution is unconfirmed.")
    else if c.historical_mutable_ref && c.run_event_in_window && not c.known_good_exact_runtime
    then ok (
        decide run_in_window_mutable_ref l2_probable
          "The historical workflow used an affected mutable reference during its source-supported exposure window; exact runtime resolution is unavailable.")
    else if c.potential_transitive
    then ok (
        decide FindingState.potential_transitive l1_possible
          "The affected component is historically reachable through a wrapper, composite Action, reusable workflow, or embedded dependency, but exact runtime resolution is unavailable.")
    else if c.current_reference_only
    then ok (
        decide FindingState.current_reference_only l1_possible
          "Only present-day repository configuration references the component; this is not evidence of historical execution.")
    else if c.material_evidence_gap || c.download_announced_only || not c.required_coverage_closed
    then ok evidence_gap
    else if is_nil c.evidence_ids || is_nil c.coverage_ids
    then err "NO_MATCH_CONFIRMED requires retained evidence and closed coverage"
    else ok (
        decide no_match_confirmed l4_certain
          "All required retained evidence for this subject was examined and no incident indicator matched.")

-- `nil`, or the error's text.
unfoldable pub validate_evidence_support : Candidate → Decision → Option String
unfolding state_valid level_valid
validate_evidence_support c d =
    if not (state_valid d.state) || not (level_valid d.provenance)
    then some "decision contains a non-canonical state or provenance level"
    else if same_state d.state no_match_confirmed
        && (not c.required_coverage_closed
            || c.material_evidence_gap
            || is_nil c.evidence_ids
            || is_nil c.coverage_ids)
    then some "NO_MATCH_CONFIRMED lacks closure evidence"
    else if same_state d.state unknown_evidence_gap
        && not c.material_evidence_gap
        && not c.download_announced_only
        && c.required_coverage_closed
    then some "UNKNOWN_EVIDENCE_GAP lacks a gap condition"
    else if same_state d.state confirmed_downloaded
        && (not c.same_attempt_exact_runtime || not c.preparation_completed)
    then some "CONFIRMED_DOWNLOADED requires same-attempt exact identity and completed preparation"
    else if same_state d.state confirmed_executed
        && (not c.same_attempt_exact_runtime || not c.lifecycle_started)
    then some "CONFIRMED_EXECUTED requires same-attempt exact identity and lifecycle start"
    else if is_nil c.evidence_ids && not (same_state d.state unknown_evidence_gap)
    then some "requires at least one evidence object"
    else none
