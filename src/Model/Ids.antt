-- ===== src/Model/Ids.antt =====
-- internal/model/ids.go: identifiers and identities.
use cirewind.Base.{
  ℕ, String, Bool, true, false, ◌&&◌, ◌||◌, not, [], ◌∷◌, if◌then◌else◌, ◌==◌, length, Text, text,
  same_text, to_lower, Result, ok, Checked, refuse_if, ◌>>◌,
}
use cirewind.Base.Int.{ℤ, is_positive}
use cirewind.Model.Texts.{all, is_lower, is_digit, in_range, fails_hex, valid_bounded_identity_text}
use cirewind.Model.Paths.{has_prefix}

-- The checks of the positive ids; `uint32` ids come as `pos`.
unfoldable pub validate_positive : ℤ → String → Checked
validate_positive value name = refuse_if (not (is_positive value)) "must be positive"

-- `strings.Cut(value, ":")`, of which the pattern below needs both halves.
abbrev pub until_colon : Text → Text
until_colon [] = []
until_colon (c ∷ s) = let rest = until_colon s in if c == b':' then [] else c ∷ rest

abbrev pub past_colon : Text → Text
past_colon [] = []
past_colon (c ∷ s) = let rest = past_colon s in if c == b':' then s else rest

abbrev is_name_char : ℕ → Bool
is_name_char c = is_lower c || is_digit c

-- `[a-z0-9]*1`
ends_in_one : Text → Bool
ends_in_one [] = false
ends_in_one (c ∷ []) = c == b'1'
ends_in_one (c ∷ d ∷ s) = is_name_char c && ends_in_one (d ∷ s)

abbrev pub is_lower_hex : ℕ → Bool
is_lower_hex c = is_digit c || in_range b'a' b'f' c

abbrev is_id_name : Text → Bool
is_id_name [] = false
is_id_name (c ∷ s) = is_lower c && ends_in_one s

-- `^[a-z][a-z0-9]*1:[0-9a-f]{64}$`: neither side of the colon may hold one.
unfoldable pub matches_versioned_id : Text → Bool
unfolding ends_in_one
matches_versioned_id value =
    is_id_name (until_colon value)
    && length (past_colon value) == 64
    && all is_lower_hex (past_colon value)

unfoldable pub validate_versioned_id : Text → Text → Checked
unfolding has_prefix matches_versioned_id
validate_versioned_id value prefix =
    refuse_if (not (has_prefix value prefix) || not (matches_versioned_id value))
      "identifier must have its prefix followed by 64 lowercase hexadecimal characters"

unfoldable pub validate_opaque_id : Text → String → Checked
unfolding valid_bounded_identity_text
validate_opaque_id value name = refuse_if (not (valid_bounded_identity_text value 256)) "is invalid"

abbrev pub validate_evidence_id : Text → Checked
validate_evidence_id id = validate_versioned_id id (text "ev1:")

abbrev pub validate_coverage_unit_id : Text → Checked
validate_coverage_unit_id id = validate_versioned_id id (text "cov1:")

abbrev pub validate_coverage_assessment_id : Text → Checked
validate_coverage_assessment_id id = validate_versioned_id id (text "cova1:")

abbrev pub validate_coverage_observation_id : Text → Checked
validate_coverage_observation_id id = validate_versioned_id id (text "covobs1:")

abbrev pub validate_finding_id : Text → Checked
validate_finding_id id = validate_versioned_id id (text "find1:")

abbrev pub validate_finding_revision_id : Text → Checked
validate_finding_revision_id id = validate_versioned_id id (text "frev1:")

abbrev pub validate_runtime_observation_id : Text → Checked
validate_runtime_observation_id id = validate_versioned_id id (text "rtobs1:")

abbrev pub validate_collection_session_id : Text → Checked
validate_collection_session_id id = validate_opaque_id id "collection session ID"

abbrev pub validate_analysis_session_id : Text → Checked
validate_analysis_session_id id = validate_opaque_id id "analysis session ID"

pub data HashAlgorithm : Type 0 where
  sha1 sha256 : HashAlgorithm
  other : Text → HashAlgorithm

abbrev pub is_sha256 : HashAlgorithm → Bool
is_sha256 sha256 = true
is_sha256 _ = false

unfoldable pub algorithm_valid : HashAlgorithm → Bool
algorithm_valid sha1 = true
algorithm_valid sha256 = true
algorithm_valid (other v) = false

unfoldable pub expected_hex_length : HashAlgorithm → ℕ
expected_hex_length sha1 = 40
expected_hex_length sha256 = 64
expected_hex_length (other v) = 0

pub record GitObjectId : Type 0 where
  pub algorithm : HashAlgorithm
  pub value : Text

-- The two names of `Valid` match the pattern of an algorithm's name, so the test of the pattern
-- refuses nothing that `Valid` accepts.
unfoldable pub validate_git_object_id : GitObjectId → Checked
unfolding algorithm_valid expected_hex_length same_text to_lower
validate_git_object_id id =
    refuse_if (not (algorithm_valid id.algorithm)) "unsupported Git object algorithm"
    >> refuse_if (not (length id.value == expected_hex_length id.algorithm))
        "object ID must contain its algorithm's number of lowercase hexadecimal characters"
    >> refuse_if (not (same_text id.value (to_lower id.value)))
        "Git object ID must be lowercase hexadecimal"
    >> refuse_if (fails_hex id.value) "Git object ID is not hexadecimal"

unfoldable pub new_git_object_id : HashAlgorithm → Text → Result GitObjectId
unfolding validate_git_object_id
new_git_object_id algorithm value =
    let id : GitObjectId = record { algorithm = algorithm; value = value } in
    validate_git_object_id id >> ok id

pub data DigestSubject : Type 0 where
  github_action_package oci_manifest executable_file release_asset : DigestSubject
  workflow_artifact : DigestSubject
  other : Text → DigestSubject

abbrev pub subject_valid : DigestSubject → Bool
subject_valid (other v) = false
subject_valid _ = true

pub record PackageDigest : Type 0 where
  pub subject : DigestSubject
  pub algorithm : HashAlgorithm
  pub value : Text

unfoldable pub validate_package_digest : PackageDigest → Checked
unfolding expected_hex_length same_text to_lower
validate_package_digest d =
    refuse_if (not (subject_valid d.subject)) "unsupported digest subject"
    >> refuse_if (not (is_sha256 d.algorithm)) "unsupported v0.1 digest algorithm"
    >> refuse_if
        (not (length d.value == expected_hex_length d.algorithm)
          || not (same_text d.value (to_lower d.value)))
        "digest must be complete lowercase hexadecimal"
    >> refuse_if (fails_hex d.value) "digest is not hexadecimal"
