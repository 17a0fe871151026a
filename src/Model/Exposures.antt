-- ===== src/Model/Exposures.antt =====
-- internal/model/finding.go: assumptions, gaps and contradictions, and what an executed action could
-- reach.
use cirewind.Base.{
  ℕ, Bool, true, false, ◌&&◌, ◌||◌, not, Option, List, [], ◌∷◌, ◌==◌, ltb, leb, length, is_nil,
  is_some, Text, text, same_text, to_upper, Checked, Result, refuse_if, ok, ◌>>◌, if◌then◌else◌,
}
use cirewind.Model.Texts.{
  all, is_upper, is_digit, valid_bounded_identity_text, validate_bounded_text, valid_machine_name,
}
use cirewind.Model.Ids.{validate_coverage_assessment_id}
use cirewind.Model.Identities.{check_some}
use cirewind.Model.Vocabulary.{GapReason, reason_valid}
use cirewind.Model.Coverage.{validate_sorted_evidence_ids}

pub record Assumption : Type 0 where
  pub code : Text
  pub description : Text

unfoldable pub validate_assumption : Assumption → Checked
unfolding valid_machine_name validate_bounded_text
validate_assumption a =
    refuse_if (not (valid_machine_name a.code 128)) "assumption code is invalid"
    >> validate_bounded_text a.description 4096 "assumption description"

pub record EvidenceGapReference : Type 0 where
  pub coverage_assessment_id : Text
  pub code : GapReason
  pub description : Text

unfoldable pub validate_gap_reference : EvidenceGapReference → Checked
unfolding validate_bounded_text
validate_gap_reference g =
    validate_coverage_assessment_id g.coverage_assessment_id
    >> refuse_if (not (reason_valid g.code)) "invalid evidence-gap code"
    >> validate_bounded_text g.description 4096 "evidence-gap description"

pub record ContradictionReference : Type 0 where
  pub group_id : Text
  pub evidence_ids : List Text
  pub description : Text

unfoldable pub validate_contradiction : ContradictionReference → Checked
unfolding valid_bounded_identity_text validate_sorted_evidence_ids validate_bounded_text
validate_contradiction c =
    refuse_if (not (valid_bounded_identity_text c.group_id 256)) "contradiction group ID is invalid"
    >> refuse_if (ltb (length c.evidence_ids) 2)
        "contradiction requires at least two evidence objects"
    >> validate_sorted_evidence_ids c.evidence_ids
    >> validate_bounded_text c.description 4096 "contradiction description"

pub data CredentialKind : Type 0 where
  github_token_permission secret_referenced_by_job secret_passed_to_step : CredentialKind
  reusable_secret_mapped reusable_secret_inherited environment_secret_eligible : CredentialKind
  oidc_minting_capability : CredentialKind
  other : Text → CredentialKind

abbrev credential_valid : CredentialKind → Bool
credential_valid (CredentialKind.other v) = false
credential_valid _ = true

abbrev pub is_token : CredentialKind → Bool
is_token github_token_permission = true
is_token _ = false

abbrev pub requires_secret_name : CredentialKind → Bool
requires_secret_name secret_referenced_by_job = true
requires_secret_name secret_passed_to_step = true
requires_secret_name reusable_secret_mapped = true
requires_secret_name environment_secret_eligible = true
requires_secret_name _ = false

abbrev pub forbids_secret_name : CredentialKind → Bool
forbids_secret_name github_token_permission = true
forbids_secret_name oidc_minting_capability = true
forbids_secret_name _ = false

pub data CredentialBasis : Type 0 where
  runtime_observed static_inferred historical_definition_reference : CredentialBasis
  historical_definition_flow reusable_workflow_call : CredentialBasis
  other : Text → CredentialBasis

abbrev credential_basis_valid : CredentialBasis → Bool
credential_basis_valid (CredentialBasis.other v) = false
credential_basis_valid _ = true

abbrev is_secret_char : ℕ → Bool
is_secret_char c = is_upper c || is_digit c || c == b'_'

-- `^[A-Z_][A-Z0-9_]{0,255}$`
abbrev matches_secret_name : Text → Bool
matches_secret_name [] = false
matches_secret_name (c ∷ rest) =
    (is_upper c || c == b'_') && leb (length rest) 255 && all is_secret_char rest

unfoldable pub new_secret_name : Text → Result Text
unfolding to_upper
new_secret_name value =
    refuse_if (not (matches_secret_name (to_upper value))) "secret name is invalid"
    >> ok (to_upper value)

unfoldable pub validate_secret_name : Text → Checked
validate_secret_name name = refuse_if (not (matches_secret_name name)) "secret name is invalid"

pub record CredentialExposure : Type 0 where
  pub kind : CredentialKind
  pub basis : CredentialBasis
  pub secret_name : Option Text
  pub permission : Text
  pub access : Text
  pub conclusion : Text
  pub evidence_ids : List Text

abbrev is_access : Text → Bool
is_access a = same_text a (text "read") || same_text a (text "write") || same_text a (text "none")

abbrev validate_permission : CredentialExposure → Checked
validate_permission e =
    if is_token e.kind
    then refuse_if (not (valid_machine_name e.permission 128) || not (is_access e.access))
        "token exposure requires a permission and read/write/none access"
    else refuse_if (not (is_nil e.permission) || not (is_nil e.access))
        "non-token exposure cannot carry token permission fields"

unfoldable pub validate_credential : CredentialExposure → Checked
unfolding validate_secret_name valid_machine_name same_text validate_bounded_text
    validate_sorted_evidence_ids
validate_credential e =
    refuse_if (not (credential_valid e.kind)) "invalid credential-exposure kind"
    >> refuse_if (not (credential_basis_valid e.basis)) "invalid credential-exposure basis"
    >> check_some validate_secret_name e.secret_name
    >> refuse_if (requires_secret_name e.kind && not (is_some e.secret_name))
        "named-secret exposure requires a secret name"
    >> refuse_if (forbids_secret_name e.kind && is_some e.secret_name)
        "token and OIDC capabilities cannot carry a secret name"
    >> validate_permission e
    >> validate_bounded_text e.conclusion 4096 "credential-exposure conclusion"
    >> refuse_if (is_nil e.evidence_ids) "credential exposure requires evidence"
    >> validate_sorted_evidence_ids e.evidence_ids

pub data ResourceKind : Type 0 where
  artifact package_version release deployment repository_write pull_request_change : ResourceKind
  other : Text → ResourceKind

abbrev resource_valid : ResourceKind → Bool
resource_valid (ResourceKind.other v) = false
resource_valid _ = true

pub data CorrelationKind : Type 0 where
  direct observed_after : CorrelationKind
  other : Text → CorrelationKind

abbrev correlation_valid : CorrelationKind → Bool
correlation_valid (CorrelationKind.other v) = false
correlation_valid _ = true

pub record ResourceExposure : Type 0 where
  pub kind : ResourceKind
  pub resource_id : Text
  pub correlation : CorrelationKind
  pub conclusion : Text
  pub evidence_ids : List Text

unfoldable pub validate_resource : ResourceExposure → Checked
unfolding valid_bounded_identity_text validate_bounded_text validate_sorted_evidence_ids
validate_resource e =
    refuse_if (not (resource_valid e.kind) || not (correlation_valid e.correlation))
      "resource exposure has invalid kind or correlation"
    >> refuse_if (not (valid_bounded_identity_text e.resource_id 512)) "resource ID is invalid"
    >> validate_bounded_text e.conclusion 4096 "resource-exposure conclusion"
    >> refuse_if (is_nil e.evidence_ids) "resource exposure requires evidence"
    >> validate_sorted_evidence_ids e.evidence_ids
