-- ===== src/Model/Subjects.antt =====
-- internal/model/finding.go: the parts of a finding that say what it is about. A nil slice is `none`.
use cirewind.Base.{
  ℕ, Bool, true, false, ◌&&◌, ◌||◌, not, Option, none, some, List, [], ◌∷◌, ◌==◌, is_nil, is_some,
  Text, Checked, refuse_if, ok, ◌>>◌,
}
use cirewind.Base.Int.{ℤ, pos, same_ℤ}
use cirewind.Base.Order.{text_order, pair_order}
use cirewind.Base.Sort.{sort_by}
use cirewind.Model.Texts.{
  valid_bounded_identity_text, validate_bounded_text, valid_machine_name, validate_sha256,
}
use cirewind.Model.Paths.{validate_workflow_path, validate_repository_slug}
use cirewind.Model.Ids.{
  validate_positive, GitObjectId, validate_git_object_id, PackageDigest, validate_package_digest,
  validate_analysis_session_id,
}
use cirewind.Model.Identities.{StepIdentity, validate_step, check_some}

pub record IncidentReference : Type 0 where
  pub id : Text
  pub api_version : Text
  pub pack_version : Text
  pub source_pack_sha256 : Text
  pub canonical_pack_sha256 : Text

unfoldable pub validate_incident : IncidentReference → Checked
unfolding valid_bounded_identity_text validate_sha256
validate_incident r =
    refuse_if (not (valid_bounded_identity_text r.id 256)) "incident ID is invalid"
    >> refuse_if (not (valid_bounded_identity_text r.api_version 128))
        "incident API version is invalid"
    >> refuse_if (not (valid_bounded_identity_text r.pack_version 128))
        "incident pack version is invalid"
    >> validate_sha256 r.source_pack_sha256 "source pack SHA-256"
    >> validate_sha256 r.canonical_pack_sha256 "canonical pack SHA-256"

pub record RepositorySubject : Type 0 where
  pub id : ℤ
  pub name : Text

unfoldable pub validate_repository_subject : RepositorySubject → Checked
unfolding validate_positive validate_repository_slug
validate_repository_subject s =
    validate_positive s.id "repository ID" >> validate_repository_slug s.name

pub record WorkflowSubject : Type 0 where
  pub path : Option Text
  pub definition_object_id : Option GitObjectId
  pub unknown_reason : Text

unfoldable pub validate_workflow_subject : WorkflowSubject → Checked
unfolding validate_workflow_path validate_git_object_id validate_bounded_text
validate_workflow_subject s =
    check_some validate_workflow_path s.path
    >> check_some validate_git_object_id s.definition_object_id
    >> refuse_if (not (is_some s.path) && is_nil s.unknown_reason)
        "workflow subject requires a path or explicit unknown reason"
    >> refuse_if (is_some s.path && not (is_nil s.unknown_reason))
        "known workflow path cannot also have an unknown reason"
    >> validate_bounded_text s.unknown_reason 1024 "workflow unknown reason"

pub record FindingSubject : Type 0 where
  pub repository : RepositorySubject
  pub workflow : WorkflowSubject
  pub run_id : Option ℤ
  pub run_attempt : Option ℕ
  pub job_id : Option ℤ
  pub step : Option StepIdentity

-- The step's job against the subject's own ids. The checks before it see that none of them is nil.
abbrev names_step : FindingSubject → StepIdentity → Bool
names_step s step =
    same_ℤ step.job.repository_id s.repository.id
    && holds (same_ℤ step.job.run_id) s.run_id
    && holds (λ n. step.job.run_attempt == n) s.run_attempt
    && holds (same_ℤ step.job.job_id) s.job_id
  where
    holds : {A : Type 0} → (A → Bool) → Option A → Bool
    holds p none = false
    holds p (some a) = p a

unfoldable pub validate_subject : FindingSubject → Checked
unfolding validate_repository_subject validate_workflow_subject validate_positive validate_step
validate_subject s =
    validate_repository_subject s.repository
    >> validate_workflow_subject s.workflow
    >> check_some (λ id. validate_positive id "workflow run ID") s.run_id
    >> refuse_if (is_some s.run_attempt && not (is_some s.run_id))
        "finding run attempt requires run ID"
    >> check_some (λ n. validate_positive (pos n) "run attempt") s.run_attempt
    >> refuse_if (is_some s.job_id && not (is_some s.run_attempt))
        "finding job requires run attempt"
    >> check_some (λ id. validate_positive id "job ID") s.job_id
    >> refuse_if (is_some s.step && not (is_some s.job_id)) "finding step requires job ID"
    >> check_some
        (λ step.
          validate_step step
          >> refuse_if (not (names_step s step))
              "finding step execution identity disagrees with its subject")
        s.step

pub record PropositionAttribute : Type 0 where
  pub name : Text
  pub value : Text

pub record Proposition : Type 0 where
  pub kind : Text
  pub action_source_object_id : Option GitObjectId
  pub package_digest : Option PackageDigest
  pub called_workflow_object_id : Option GitObjectId
  pub attributes : Option (List PropositionAttribute)

abbrev follows : Option PropositionAttribute → PropositionAttribute → Bool
follows none a = true
follows (some previous) a = text_order.less previous.name a.name

unfoldable pub validate_attributes :
    Option PropositionAttribute → List PropositionAttribute → Checked
unfolding valid_machine_name validate_bounded_text
validate_attributes previous [] = ok tt
validate_attributes previous (a ∷ rest) =
    refuse_if (not (valid_machine_name a.name 128)) "proposition attribute has invalid name"
    >> validate_bounded_text a.value 4096 "proposition attribute value"
    >> refuse_if (not (follows previous a)) "proposition attributes must be sorted by unique name"
    >> validate_attributes (some a) rest

abbrev pub items {ℓ} : {A : Type ℓ} → Option (List A) → List A
items none = []
items (some xs) = xs

unfoldable pub validate_proposition : Proposition → Checked
unfolding validate_attributes validate_git_object_id validate_package_digest valid_machine_name
validate_proposition p =
    refuse_if (not (valid_machine_name p.kind 128)) "proposition kind is invalid"
    >> refuse_if (not (is_some p.attributes)) "proposition attributes must be an explicit array"
    >> check_some validate_git_object_id p.action_source_object_id
    >> check_some validate_package_digest p.package_digest
    >> check_some validate_git_object_id p.called_workflow_object_id
    >> validate_attributes none (items p.attributes)

-- `append` of no attributes to nil is nil.
abbrev not_empty : {A : Type 0} → List A → Option (List A)
not_empty [] = none
not_empty (x ∷ xs) = some (x ∷ xs)

abbrev pub attribute_key : PropositionAttribute → Text × Text
attribute_key a = (a.name, a.value)

unfoldable pub normalize_proposition : Proposition → Proposition
unfolding sort_by
normalize_proposition p = record p {
  attributes = not_empty (sort_by attribute_key (items p.attributes));
}

pub record DerivationReference : Type 0 where
  pub rule_id : Text
  pub rule_version : Text
  pub first_produced_analysis_id : Text
  pub first_produced_engine_version : Text
  pub canonical_inputs_sha256 : Text

unfoldable pub validate_derivation : DerivationReference → Checked
unfolding valid_machine_name valid_bounded_identity_text validate_sha256
validate_derivation d =
    refuse_if
      (not (valid_machine_name d.rule_id 256)
        || not (valid_bounded_identity_text d.rule_version 128))
      "derivation rule ID or version is invalid"
    >> validate_analysis_session_id d.first_produced_analysis_id
    >> refuse_if (not (valid_bounded_identity_text d.first_produced_engine_version 256))
        "first-producing engine version is invalid"
    >> validate_sha256 d.canonical_inputs_sha256 "canonical derivation input SHA-256"
