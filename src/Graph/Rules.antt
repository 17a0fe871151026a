-- ===== src/Graph/Rules.antt =====
-- internal/graph/graph.go: `endpointRules`, and the types that are known.
use cirewind.Base.{Bool, true, false, Option, none, some, List, [], ◌∷◌, any}
use cirewind.Graph.Types.{
  NodeType, EdgeType, same_type, repository_node, workflow_definition_node,
  reusable_workflow_definition_node, workflow_run_node, run_attempt_node, job_node, step_node,
  action_repository_node, action_ref_node, action_commit_node, immutable_action_package_node,
  action_definition_node, runner_node, runner_group_node, environment_node, token_capability_node,
  secret_metadata_node, oidc_provider_node, artifact_node, package_node, release_node,
  deployment_node, repository_resource_node, pull_request_change_node, evidence_object_node,
  finding_node, other_node, run_in_repository, attempt_of_run, job_executed_in_attempt, step_in_job,
  run_instantiated_workflow, workflow_declared_action, workflow_called_workflow,
  action_contains_action, local_action_resolved_to, ref_resolved_to, package_source_commit,
  job_prepared_action, step_downloaded_action, step_executed_action, executed_on_runner,
  runner_in_group, had_token_permission, referenced_secret, passed_secret_to, inherited_secret,
  targeted_environment, crossed_environment_gate, environment_secret_eligible, could_mint_oidc,
  produced_artifact, published_package, created_release, created_deployment, repository_write,
  pull_request_change, observed_after, finding_about, supported_by_evidence, contradicts,
  other_edge,
}

pub record EndpointRule : Type 0 where
  pub sources : List NodeType
  pub targets : List NodeType

abbrev rule : List NodeType → List NodeType → Option EndpointRule
rule sources targets = some record { sources = sources; targets = targets }

unfoldable pub endpoint_rule : EdgeType → Option EndpointRule
endpoint_rule run_in_repository = rule (repository_node ∷ []) (workflow_run_node ∷ [])
endpoint_rule attempt_of_run = rule (run_attempt_node ∷ []) (workflow_run_node ∷ [])
endpoint_rule job_executed_in_attempt = rule (run_attempt_node ∷ []) (job_node ∷ [])
endpoint_rule step_in_job = rule (job_node ∷ []) (step_node ∷ [])
endpoint_rule run_instantiated_workflow =
    rule (workflow_run_node ∷ []) (workflow_definition_node ∷ [])
endpoint_rule workflow_declared_action = rule (workflow_definition_node ∷ []) (
    action_ref_node ∷ action_commit_node ∷ immutable_action_package_node ∷ action_repository_node
    ∷ [])
endpoint_rule workflow_called_workflow =
    rule (workflow_definition_node ∷ run_attempt_node ∷ [])
      (action_ref_node ∷ reusable_workflow_definition_node ∷ [])
endpoint_rule action_contains_action = rule (action_definition_node ∷ []) (
    action_ref_node ∷ action_commit_node ∷ immutable_action_package_node ∷ action_repository_node
    ∷ action_definition_node ∷ [])
endpoint_rule local_action_resolved_to =
    rule (workflow_definition_node ∷ action_definition_node ∷ []) (action_definition_node ∷ [])
endpoint_rule ref_resolved_to = rule (action_ref_node ∷ []) (
    action_commit_node ∷ immutable_action_package_node ∷ reusable_workflow_definition_node
    ∷ action_definition_node ∷ [])
endpoint_rule package_source_commit =
    rule (immutable_action_package_node ∷ []) (action_commit_node ∷ [])
endpoint_rule job_prepared_action =
    rule (job_node ∷ [])
      (action_commit_node ∷ immutable_action_package_node ∷ action_repository_node ∷ [])
endpoint_rule step_downloaded_action =
    rule (step_node ∷ [])
      (action_commit_node ∷ immutable_action_package_node ∷ action_repository_node ∷ [])
endpoint_rule step_executed_action =
    rule (step_node ∷ [])
      (action_commit_node ∷ immutable_action_package_node ∷ action_repository_node ∷ [])
endpoint_rule executed_on_runner = rule (job_node ∷ []) (runner_node ∷ [])
endpoint_rule runner_in_group = rule (runner_node ∷ []) (runner_group_node ∷ [])
endpoint_rule had_token_permission = rule (job_node ∷ []) (token_capability_node ∷ [])
endpoint_rule referenced_secret =
    rule (job_node ∷ step_node ∷ workflow_definition_node ∷ []) (secret_metadata_node ∷ [])
endpoint_rule passed_secret_to =
    rule (secret_metadata_node ∷ []) (job_node ∷ step_node ∷ workflow_definition_node ∷ [])
endpoint_rule inherited_secret =
    rule (job_node ∷ workflow_definition_node ∷ []) (secret_metadata_node ∷ [])
endpoint_rule targeted_environment = rule (job_node ∷ []) (environment_node ∷ [])
endpoint_rule crossed_environment_gate = rule (job_node ∷ []) (environment_node ∷ [])
endpoint_rule environment_secret_eligible = rule (environment_node ∷ []) (secret_metadata_node ∷ [])
endpoint_rule could_mint_oidc = rule (job_node ∷ []) (oidc_provider_node ∷ [])
endpoint_rule produced_artifact = rule (job_node ∷ step_node ∷ []) (artifact_node ∷ [])
endpoint_rule published_package = rule (job_node ∷ step_node ∷ []) (package_node ∷ [])
endpoint_rule created_release = rule (job_node ∷ step_node ∷ []) (release_node ∷ [])
endpoint_rule created_deployment = rule (job_node ∷ step_node ∷ []) (deployment_node ∷ [])
endpoint_rule repository_write = rule (job_node ∷ step_node ∷ []) (repository_resource_node ∷ [])
endpoint_rule pull_request_change = rule (job_node ∷ step_node ∷ []) (pull_request_change_node ∷ [])
endpoint_rule observed_after = rule (job_node ∷ step_node ∷ []) (
    artifact_node ∷ package_node ∷ release_node ∷ deployment_node ∷ repository_resource_node
    ∷ pull_request_change_node ∷ [])
endpoint_rule finding_about = rule (finding_node ∷ []) (
    repository_node ∷ workflow_definition_node ∷ reusable_workflow_definition_node
    ∷ workflow_run_node ∷ run_attempt_node ∷ job_node ∷ step_node ∷ action_repository_node
    ∷ action_ref_node ∷ action_commit_node ∷ immutable_action_package_node ∷ action_definition_node
    ∷ [])
endpoint_rule supported_by_evidence = rule (finding_node ∷ []) (evidence_object_node ∷ [])
endpoint_rule contradicts =
    rule
      (action_commit_node ∷ immutable_action_package_node ∷ reusable_workflow_definition_node
        ∷ action_definition_node ∷ [])
      (action_commit_node ∷ immutable_action_package_node ∷ reusable_workflow_definition_node
        ∷ action_definition_node ∷ [])
endpoint_rule (other_edge v) = none

abbrev pub node_valid : NodeType → Bool
node_valid (other_node v) = false
node_valid repository_node = true
node_valid workflow_definition_node = true
node_valid reusable_workflow_definition_node = true
node_valid workflow_run_node = true
node_valid run_attempt_node = true
node_valid job_node = true
node_valid step_node = true
node_valid action_repository_node = true
node_valid action_ref_node = true
node_valid action_commit_node = true
node_valid immutable_action_package_node = true
node_valid action_definition_node = true
node_valid runner_node = true
node_valid runner_group_node = true
node_valid environment_node = true
node_valid token_capability_node = true
node_valid secret_metadata_node = true
node_valid oidc_provider_node = true
node_valid artifact_node = true
node_valid package_node = true
node_valid release_node = true
node_valid deployment_node = true
node_valid repository_resource_node = true
node_valid pull_request_change_node = true
node_valid evidence_object_node = true
node_valid finding_node = true

-- `_, allowed := rule.sources[t]`
abbrev pub allows : List NodeType → NodeType → Bool
allows types t = any (λ s. same_type s t) types
