-- ===== src/Graph/Types.antt =====
-- internal/graph/graph.go: the vocabularies and the graph.
use cirewind.Base.{Bool, List, Text, text, same_text}

-- `NodeType`, a string type with constants; any other string is `other_node`.
pub data NodeType : Type 0 where
  repository_node workflow_definition_node reusable_workflow_definition_node workflow_run_node :
      NodeType
  run_attempt_node job_node step_node action_repository_node action_ref_node action_commit_node :
      NodeType
  immutable_action_package_node action_definition_node runner_node runner_group_node : NodeType
  environment_node token_capability_node secret_metadata_node oidc_provider_node artifact_node :
      NodeType
  package_node release_node deployment_node repository_resource_node pull_request_change_node :
      NodeType
  evidence_object_node finding_node : NodeType
  other_node : Text → NodeType

abbrev pub node_text : NodeType → Text
node_text repository_node = text "Repository"
node_text workflow_definition_node = text "WorkflowDefinition"
node_text reusable_workflow_definition_node = text "ReusableWorkflowDefinition"
node_text workflow_run_node = text "WorkflowRun"
node_text run_attempt_node = text "RunAttempt"
node_text job_node = text "Job"
node_text step_node = text "Step"
node_text action_repository_node = text "ActionRepository"
node_text action_ref_node = text "ActionRef"
node_text action_commit_node = text "ActionCommit"
node_text immutable_action_package_node = text "ImmutableActionPackage"
node_text action_definition_node = text "ActionDefinition"
node_text runner_node = text "Runner"
node_text runner_group_node = text "RunnerGroup"
node_text environment_node = text "Environment"
node_text token_capability_node = text "TokenCapability"
node_text secret_metadata_node = text "SecretMetadata"
node_text oidc_provider_node = text "OIDCProvider"
node_text artifact_node = text "Artifact"
node_text package_node = text "Package"
node_text release_node = text "Release"
node_text deployment_node = text "Deployment"
node_text repository_resource_node = text "RepositoryResource"
node_text pull_request_change_node = text "PullRequestChange"
node_text evidence_object_node = text "EvidenceObject"
node_text finding_node = text "Finding"
node_text (other_node v) = v

-- `EdgeType`, the same.
pub data EdgeType : Type 0 where
  run_in_repository attempt_of_run job_executed_in_attempt step_in_job run_instantiated_workflow :
      EdgeType
  workflow_declared_action workflow_called_workflow action_contains_action : EdgeType
  local_action_resolved_to ref_resolved_to package_source_commit job_prepared_action : EdgeType
  step_downloaded_action step_executed_action executed_on_runner runner_in_group : EdgeType
  had_token_permission referenced_secret passed_secret_to inherited_secret targeted_environment :
      EdgeType
  crossed_environment_gate environment_secret_eligible could_mint_oidc produced_artifact : EdgeType
  published_package created_release created_deployment repository_write pull_request_change :
      EdgeType
  observed_after finding_about supported_by_evidence contradicts : EdgeType
  other_edge : Text → EdgeType

abbrev pub same_type : NodeType → NodeType → Bool
same_type s t = same_text (node_text s) (node_text t)

pub record Node : Type 0 where
  pub id : Text
  pub kind : NodeType
  pub label : Text
  pub evidence_ids : List Text
  pub focus_finding_ids : List Text

pub record Edge : Type 0 where
  pub id : Text
  pub kind : EdgeType
  pub source : Text
  pub target : Text
  pub evidence_ids : List Text
  pub derivation_rule : Text
  pub event_time : Text
  pub inferred : Bool
  pub focus_finding_ids : List Text

pub record Graph : Type 0 where
  pub schema_version : Text
  pub nodes : List Node
  pub edges : List Edge
