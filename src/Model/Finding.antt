-- ===== src/Model/Finding.antt =====
-- internal/model/finding.go and coverage.go: findings, their validation, and the check of a finding
-- against the coverage it refers to. A nil slice is `none`.
pub mod Support
pub mod Closure
mod Samples
use cirewind.Base.{
  ℕ, String, Bool, true, false, ◌&&◌, ◌||◌, not, Option, none, some, List, [], ◌∷◌, is_nil, is_some,
  any, Text, text, same_text, Checked, Result, refuse_if, ok, err, ◌>>◌, ◌>>=◌, check_each, within,
  if◌then◌else◌,
}
use cirewind.Model.Texts.{valid_bounded_identity_text, validate_bounded_text}
use cirewind.Model.Ids.{
  validate_finding_id, validate_finding_revision_id, validate_coverage_assessment_id,
}
use cirewind.Model.Identities.{check_some}
use cirewind.Model.Times.{Instant, EventInterval, validate_instant, validate_event_interval}
use cirewind.Model.Vocabulary.{is_gap}
use cirewind.Model.States.{
  FindingState, ProvenanceLevel, state_valid, level_valid, same_state, confirmed_executed,
  no_match_confirmed, unknown_evidence_gap, contradictory_evidence,
}
use cirewind.Model.Coverage.{
  CoverageUnit, CoverageAssessment, validate_unit, validate_assessment, validate_ascending_after,
  validate_sorted_evidence_ids,
}
use cirewind.Model.Coverage.Reconcile.{
  CoverageSummary, has_unit_id, has_assessment_id, add_units, find_unit, reconcile_coverage,
  allows_no_match_confirmed,
}
use cirewind.Model.Subjects.{
  IncidentReference, FindingSubject, Proposition, DerivationReference, validate_incident,
  validate_subject, validate_proposition, validate_derivation, items,
}
use cirewind.Model.Exposures.{
  Assumption, EvidenceGapReference, ContradictionReference, CredentialExposure, ResourceExposure,
  validate_assumption, validate_gap_reference, validate_contradiction, validate_credential,
  validate_resource,
}

pub record Finding : Type 0 where
  pub schema_version : Text
  pub finding_id : Text
  pub finding_revision_id : Text
  pub incident : IncidentReference
  pub indicator_id : Text
  pub subject : FindingSubject
  pub state : FindingState
  pub provenance_level : ProvenanceLevel
  pub conclusion : Text
  pub proposition : Proposition
  pub event_time : EventInterval
  pub evidence_object_ids : Option (List Text)
  pub assumptions : Option (List Assumption)
  pub evidence_gaps : Option (List EvidenceGapReference)
  pub contradictory : Option (List ContradictionReference)
  pub credential_exposure : Option (List CredentialExposure)
  pub resource_exposure : Option (List ResourceExposure)
  pub remediation_guidance : Option (List Text)
  pub collection_coverage : Option (List Text)
  pub derivation : DerivationReference
  pub collection_time : Instant
  pub supersedes_revision_id : Option Text

abbrev pub is_empty {ℓ} : {A : Type ℓ} → Option (List A) → Bool
is_empty xs = is_nil (items xs)

abbrev pub has_null_field : Finding → Bool
has_null_field f =
    not (is_some f.evidence_object_ids)
    || not (is_some f.assumptions)
    || not (is_some f.evidence_gaps)
    || not (is_some f.contradictory)
    || not (is_some f.credential_exposure)
    || not (is_some f.resource_exposure)
    || not (is_some f.remediation_guidance)
    || not (is_some f.collection_coverage)

-- Up to the finding's own collections.
unfoldable pub validate_header : Finding → Checked
unfolding valid_bounded_identity_text validate_bounded_text validate_incident validate_subject
    state_valid level_valid validate_proposition validate_event_interval same_text
validate_header f =
    refuse_if (not (same_text f.schema_version (text "cirewind.findings/v1alpha1")))
      "unsupported findings schema"
    >> validate_finding_id f.finding_id
    >> validate_finding_revision_id f.finding_revision_id
    >> validate_incident f.incident
    >> refuse_if (not (valid_bounded_identity_text f.indicator_id 256)) "indicator ID is invalid"
    >> within "finding subject" (validate_subject f.subject)
    >> refuse_if (not (state_valid f.state)) "invalid finding state"
    >> refuse_if (not (level_valid f.provenance_level)) "invalid provenance level"
    >> validate_bounded_text f.conclusion 8192 "finding conclusion"
    >> validate_proposition f.proposition
    >> validate_event_interval f.event_time

-- `validateSortedUniqueCoverageAssessmentIDs`
abbrev pub validate_sorted_assessment_ids : List Text → Checked
validate_sorted_assessment_ids ids =
    validate_ascending_after validate_coverage_assessment_id
      "coverage assessment IDs must be strictly bytewise sorted and unique" none ids

abbrev validate_supersedes : Text → Option Text → Checked
validate_supersedes revision superseded =
    check_some
      (λ id.
        validate_finding_revision_id id
        >> refuse_if (same_text id revision) "finding revision cannot supersede itself")
      superseded

unfoldable pub validate_collections : Finding → Checked
unfolding validate_sorted_evidence_ids validate_assumption validate_gap_reference
    validate_contradiction validate_credential validate_resource validate_bounded_text
    validate_ascending_after validate_derivation validate_instant check_each same_text
validate_collections f =
    refuse_if (has_null_field f) "finding collection fields must be explicit arrays, not null"
    >> validate_sorted_evidence_ids (items f.evidence_object_ids)
    >> check_each validate_assumption (items f.assumptions)
    >> check_each validate_gap_reference (items f.evidence_gaps)
    >> check_each validate_contradiction (items f.contradictory)
    >> check_each validate_credential (items f.credential_exposure)
    >> check_each validate_resource (items f.resource_exposure)
    >> check_each (λ g. validate_bounded_text g 8192 "remediation guidance")
        (items f.remediation_guidance)
    >> validate_sorted_assessment_ids (items f.collection_coverage)
    >> validate_derivation f.derivation
    >> validate_instant f.collection_time
    >> validate_supersedes f.finding_revision_id f.supersedes_revision_id

-- What each state demands.
unfoldable pub validate_state_support : Finding → Checked
validate_state_support f =
    refuse_if (is_empty f.evidence_object_ids && is_empty f.evidence_gaps)
      "finding requires evidence objects or an explicit evidence gap"
    >> refuse_if (same_state f.state unknown_evidence_gap && is_empty f.evidence_gaps)
        "UNKNOWN_EVIDENCE_GAP requires an explicit gap"
    >> refuse_if (same_state f.state contradictory_evidence && is_empty f.contradictory)
        "CONTRADICTORY_EVIDENCE requires contradictory evidence"
    >> refuse_if
        (same_state f.state no_match_confirmed
          && (is_empty f.evidence_object_ids
              || is_empty f.collection_coverage
              || not (is_empty f.evidence_gaps)))
        "NO_MATCH_CONFIRMED requires evidence, closed coverage, and no evidence gaps"
    >> refuse_if
        (not (same_state f.state confirmed_executed)
          && (not (is_empty f.credential_exposure) || not (is_empty f.resource_exposure)))
        "credential or resource reachability requires a separate CONFIRMED_EXECUTED proposition"

unfoldable pub validate_finding : Finding → Checked
unfolding validate_header validate_collections validate_state_support
validate_finding f = validate_header f >> validate_collections f >> validate_state_support f

-- `ValidateFindingCoverage`; its maps are lists, newest entry first. Of its two copies of the loop over
-- units, this one does not wrap the error.
unfoldable pub table_assessments :
    List CoverageAssessment → List CoverageAssessment → Result (List CoverageAssessment)
unfolding validate_assessment same_text
table_assessments [] seen = ok seen
table_assessments (a ∷ rest) seen =
    validate_assessment a
    >> refuse_if (any (has_assessment_id a.id) seen) "duplicate coverage assessment"
    >> table_assessments rest (a ∷ seen)

unfoldable pub table_units : List CoverageUnit → List CoverageUnit → Result (List CoverageUnit)
unfolding validate_unit same_text
table_units [] seen = ok seen
table_units (u ∷ rest) seen =
    validate_unit u
    >> refuse_if (any (has_unit_id u.id) seen) "duplicate coverage unit"
    >> table_units rest (u ∷ seen)

unfoldable pub find_assessment : Text → List CoverageAssessment → Option CoverageAssessment
unfolding same_text
find_assessment id [] = none
find_assessment id (a ∷ rest) =
    let found = find_assessment id rest in if has_assessment_id id a then some a else found

abbrev pub check_gap : List CoverageAssessment → EvidenceGapReference → Checked
check_gap table g = elim (find_assessment g.coverage_assessment_id table) [
  | none ↦ err "finding gap references unknown coverage assessment"
  | some a ↦ refuse_if (not (is_gap a.status)) "finding gap references non-gap assessment"
]

-- The units and assessments that the finding's coverage selects.
abbrev pub known {ℓ} : {A : Type ℓ} → String → Option A → Result A
known message none = err message
known message (some a) = ok a

unfoldable pub select_coverage :
    List CoverageUnit
    → List CoverageAssessment
    → List Text
    → Result (List CoverageUnit × List CoverageAssessment)
unfolding find_assessment find_unit
select_coverage units table [] = ok ([], [])
select_coverage units table (id ∷ rest) = do
  a ← known "finding references unknown coverage assessment" (find_assessment id table)
  u ← known "coverage assessment references unknown unit" (find_unit a.unit_id units)
  selected ← select_coverage units table rest
  ok (u ∷ selected.0, a ∷ selected.1)

abbrev pub check_closure : FindingState → List CoverageUnit → List CoverageAssessment → Checked
check_closure state units assessments =
    if same_state state no_match_confirmed
    then (within "NO_MATCH_CONFIRMED coverage is not closed"
          (reconcile_coverage units assessments true)
        >>= λ summary.
            refuse_if (not (allows_no_match_confirmed summary))
              "NO_MATCH_CONFIRMED coverage contains a material gap")
    else ok tt

unfoldable pub validate_finding_coverage :
    Finding → List CoverageUnit → List CoverageAssessment → Checked
unfolding validate_finding table_units table_assessments find_assessment select_coverage
    reconcile_coverage allows_no_match_confirmed check_each
validate_finding_coverage f units assessments =
    validate_finding f
    >> (table_units units [] >>= λ unit_table. table_assessments assessments [] >>= λ table.
        check_each (check_gap table) (items f.evidence_gaps)
        >> (select_coverage unit_table table (items f.collection_coverage) >>= λ selected.
            check_closure f.state selected.0 selected.1))
