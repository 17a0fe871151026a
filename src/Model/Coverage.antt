-- ===== src/Model/Coverage.antt =====
-- internal/model/coverage.go: coverage units, their assessments, and the validation of both.
pub mod Reconcile
pub mod Missing
pub mod Counts
pub mod Opened
pub mod Closed
pub mod Canonical
mod Samples
use cirewind.Base.{
  ℕ, String, Bool, true, false, ◌&&◌, ◌||◌, not, Option, none, some, List, [], ◌∷◌, if◌then◌else◌,
  ltb, length, is_nil, is_some, any, Text, Result, ok, err, Checked, refuse_if, ◌>>◌, within, ◌==◌,
}
use cirewind.Base.Int.{ℤ, pos}
use cirewind.Base.Order.{Order, text_order}
use cirewind.Base.Sort.{sort_by}
use cirewind.Base.Unique.{sorted_unique}
use cirewind.Model.Texts.{valid_utf8, valid_bounded_identity_text}
use cirewind.Model.Paths.{validate_workflow_path}
use cirewind.Model.Ids.{
  validate_positive, validate_evidence_id, validate_coverage_unit_id,
  validate_coverage_assessment_id, validate_coverage_observation_id, validate_collection_session_id,
}
use cirewind.Model.Identities.{check_some}
use cirewind.Model.Times.{Instant, validate_instant}
use cirewind.Model.Vocabulary.{
  CoverageStatus, CoverageKind, GapReason, status_valid, is_gap, coverage_kind_valid, reason_valid,
}

pub record CoverageScope : Type 0 where
  pub repository_id : Option ℤ
  pub workflow_path : Option Text
  pub run_id : Option ℤ
  pub run_attempt : Option ℕ
  pub job_id : Option ℤ
  pub step_key : Text

unfoldable pub validate_scope : CoverageScope → Checked
unfolding validate_positive validate_workflow_path valid_bounded_identity_text
validate_scope s =
    check_some (λ id. validate_positive id "repository ID") s.repository_id
    >> check_some validate_workflow_path s.workflow_path
    >> refuse_if (is_some s.run_id && not (is_some s.repository_id))
        "coverage run scope requires repository ID"
    >> check_some (λ id. validate_positive id "workflow run ID") s.run_id
    >> refuse_if (is_some s.run_attempt && not (is_some s.run_id))
        "coverage attempt scope requires run ID"
    >> check_some (λ n. validate_positive (pos n) "run attempt") s.run_attempt
    >> refuse_if (is_some s.job_id && not (is_some s.run_attempt))
        "coverage job scope requires run attempt"
    >> check_some (λ id. validate_positive id "job ID") s.job_id
    >> refuse_if
        (not (is_nil s.step_key)
          && (not (is_some s.job_id) || not (valid_bounded_identity_text s.step_key 1024)))
        "coverage step key requires a job and bounded identity"

pub record CoverageUnit : Type 0 where
  pub id : Text
  pub kind : CoverageKind
  pub scope : CoverageScope
  pub logical_key : Text
  pub required_for_negative : Bool

unfoldable pub validate_unit : CoverageUnit → Checked
unfolding validate_scope valid_bounded_identity_text
validate_unit u =
    validate_coverage_unit_id u.id
    >> refuse_if (not (coverage_kind_valid u.kind)) "invalid coverage kind"
    >> within "coverage scope" (validate_scope u.scope)
    >> refuse_if (not (valid_bounded_identity_text u.logical_key 2048))
        "coverage logical key is invalid"

pub record CoverageGapDetail : Type 0 where
  pub reason : GapReason
  pub retryable : Bool
  pub material : Bool
  pub permission_related : Option Bool
  pub sanitized_message : Text

unfoldable pub validate_gap_detail : CoverageGapDetail → Checked
unfolding valid_utf8
validate_gap_detail g =
    refuse_if (not (reason_valid g.reason)) "invalid gap reason"
    >> refuse_if
        (ltb 2048 (length g.sanitized_message)
          || not (valid_utf8 g.sanitized_message)
          || any (λ c. c == 0) g.sanitized_message)
        "gap message is not bounded UTF-8"

-- The loop that compares each id with the one before it.
module _ (check : Text → Checked) (message : String) where
  pub ascends : Option Text → Text → Bool
  ascends none id = true
  ascends (some previous) id = text_order.less previous id

  unfoldable pub validate_ascending_after : Option Text → List Text → Checked
  unfolding ascends
  validate_ascending_after previous [] = ok tt
  validate_ascending_after previous (id ∷ rest) =
      check id
      >> refuse_if (not (ascends previous id)) message
      >> validate_ascending_after (some id) rest

-- `validateSortedUniqueEvidenceIDs`
unfoldable pub validate_sorted_evidence_ids : List Text → Checked
unfolding validate_ascending_after
validate_sorted_evidence_ids ids =
    validate_ascending_after validate_evidence_id
      "evidence IDs must be strictly bytewise sorted and unique" none ids

-- `SortEvidenceIDs`, and the loop of `deduplicateEvidenceIDs`
unfoldable pub sort_evidence_ids : List Text → List Text
unfolding sorted_unique
sort_evidence_ids ids = sorted_unique (λ id. false) ids

-- Counts are `uint64`.
pub record CoverageAssessment : Type 0 where
  pub id : Text
  pub unit_id : Text
  pub status : CoverageStatus
  pub expected_count : Option ℕ
  pub observed_count : ℕ
  pub gap : Option CoverageGapDetail
  pub evidence_ids : List Text

abbrev pub exceeds : ℕ → Option ℕ → Bool
exceeds observed none = false
exceeds observed (some expected) = ltb expected observed

abbrev pub validate_gap_state : Bool → Option CoverageGapDetail → Checked
validate_gap_state true none = err "gap coverage requires gap detail"
validate_gap_state true (some detail) = validate_gap_detail detail
validate_gap_state false none = ok tt
validate_gap_state false (some detail) = err "non-gap coverage cannot carry gap detail"

unfoldable pub validate_assessment : CoverageAssessment → Checked
unfolding validate_gap_detail validate_sorted_evidence_ids
validate_assessment a =
    validate_coverage_assessment_id a.id
    >> validate_coverage_unit_id a.unit_id
    >> refuse_if (not (status_valid a.status)) "invalid coverage status"
    >> refuse_if (exceeds a.observed_count a.expected_count && not (is_gap a.status))
        "coverage observed count exceeds expected count"
    >> validate_gap_state (is_gap a.status) a.gap
    >> validate_sorted_evidence_ids a.evidence_ids

pub record CoverageObservation : Type 0 where
  pub id : Text
  pub assessment_id : Text
  pub collection_session_id : Text
  pub observed_at : Instant

unfoldable pub validate_observation : CoverageObservation → Checked
unfolding validate_instant
validate_observation o =
    validate_coverage_observation_id o.id
    >> validate_coverage_assessment_id o.assessment_id
    >> validate_collection_session_id o.collection_session_id
    >> validate_instant o.observed_at
