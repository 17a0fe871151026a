-- ===== src/Exposure/Facts.antt =====
-- internal/exposure/exposure.go: the facts that each permission, secret flow, runner and resource
-- contributes.
use cirewind.Base.{
  Bool, true, false, ◌&&◌, ◌||◌, not, List, [], ◌∷◌, ◌++◌, if◌then◌else◌, is_nil, ◌==◌, ltb, Text,
  text, same_text, to_upper,
}
use cirewind.Base.Int.{pos, same_ℤ}
use cirewind.Base.Time.{is_zero}
use cirewind.Exposure.Types.{
  Permission, SecretFlowKind, SecretFlow, secret_exists_metadata, secret_referenced_by_job,
  secret_passed_to_step, reusable_secret_mapped, reusable_secret_inherited,
  environment_secret_eligible, flow_kind_text, Runner, Resource, Input, Fact,
}
use cirewind.Exposure.Permissions.{unique_evidence}

unfoldable pub permission_facts : Permission → List Fact
unfolding unique_evidence same_text
permission_facts p =
    record {
      kind = text "GITHUB_TOKEN";
      name = p.name;
      capability = p.access;
      basis = p.basis;
      conclusion =
          text "The affected lifecycle could use the job token permission "
          ++ (p.name
              ++ (text ": " ++ (p.access ++ text "; repository activity was not established.")));
      evidence_ids = unique_evidence p.evidence_ids;
    }
    ∷ (if same_text p.name (text "id-token") && same_text p.access (text "write")
        then record {
          kind = text "OIDC_MINTING_CAPABILITY";
          name = [];
          capability = text "id-token: write";
          basis = p.basis;
          conclusion =
              text
                "The affected lifecycle could request a GitHub OIDC token; no token request, relying-party trust, exchange, cloud identity, or role assumption was established.";
          evidence_ids = unique_evidence p.evidence_ids;
        }
          ∷ []
        else [])

abbrev pub flow_fact : SecretFlow → Text → Text → List Text → Fact
flow_fact flow basis conclusion evidence = record {
  kind = flow_kind_text flow.kind;
  name = to_upper flow.name;
  capability = [];
  basis = basis;
  conclusion = conclusion;
  evidence_ids = unique_evidence evidence;
}

abbrev pub when : Bool → Fact → List Fact
when true fact = fact ∷ []
when false fact = []

abbrev is_first_hop : SecretFlow → Bool
is_first_hop flow = same_ℤ flow.call_hop (pos 1)

abbrev inherited_conclusion : Text → Text
inherited_conclusion name =
    if is_nil name
    then text
        "The caller declared secrets: inherit for one direct call hop; the eligible name set and affected-step access remain unknown."
    else text
        "The named eligible secret was inherited for one direct call hop; an affected-step reference, value, read, use, or exfiltration was not established."

-- The tests of the `switch`, each with its fact.
abbrev pub flow_facts_of : Input → SecretFlow → SecretFlowKind → List Fact
flow_facts_of input flow secret_referenced_by_job =
    when (input.job_started && input.affected_lifecycle_started && is_nil flow.destination_step) (
      flow_fact flow (text "historical-definition-reference")
        (text
          "The started job's historical definition contained a job-scoped reference to this secret name. Retained evidence does not establish that the reference flowed into, or was readable by, the affected step; value availability, use, and exfiltration were not established.")
        flow.evidence_ids)
flow_facts_of input flow secret_passed_to_step =
    when
      (input.affected_lifecycle_started && same_text flow.destination_step input.affected_step_key)
      (flow_fact flow (text "historical-definition-flow")
        (text
          "The exact historical definition passed the named secret reference to the affected step. Retained evidence does not establish a non-empty value, read, use, or exfiltration.")
        flow.evidence_ids)
flow_facts_of input flow reusable_secret_mapped = when (is_first_hop flow) (
    flow_fact flow (text "reusable-workflow-call")
      (text
        "The named secret was mapped to the directly called workflow; this alone does not establish that an affected job or step received or read it.")
      flow.evidence_ids)
flow_facts_of input flow reusable_secret_inherited = when (is_first_hop flow) (
    flow_fact flow (text "reusable-workflow-call") (inherited_conclusion (to_upper flow.name))
      flow.evidence_ids)
flow_facts_of input flow environment_secret_eligible =
    when
      (input.environment.targeted
        && input.environment.crossed
        && input.environment.job_started
        && input.affected_lifecycle_started
        && (is_nil flow.destination_step
            || same_text flow.destination_step input.affected_step_key))
      (flow_fact flow (text "environment-gate-and-job-start")
        (text
          "The named environment secret reference became eligible after the environment gate and job start; a value, read, use, or exfiltration was not established.")
        (flow.evidence_ids ++ input.environment.evidence_ids))
flow_facts_of input flow secret_exists_metadata = []
flow_facts_of input flow (SecretFlowKind.other v) = []

unfoldable pub flow_facts : Input → SecretFlow → List Fact
unfolding unique_evidence same_text to_upper
flow_facts input flow = flow_facts_of input flow flow.kind

abbrev runner_fact : Text → Runner → Text → Fact
runner_fact kind runner conclusion = record {
  kind = kind;
  name = runner.name;
  capability = [];
  basis = text "runner-observation";
  conclusion = conclusion;
  evidence_ids = unique_evidence runner.evidence_ids;
}

unfoldable pub runner_facts : Runner → List Fact
unfolding unique_evidence same_text
runner_facts runner =
    if same_text runner.classification (text "self-hosted")
    then runner_fact (text "SELF_HOSTED_RUNNER") runner (
        text
          "The affected job used a self-hosted runner; persistence, endpoint compromise, lateral movement, and internal-network reachability were not determined.")
      ∷ []
    else if same_text runner.classification (text "github-hosted")
    then runner_fact (text "GITHUB_HOSTED_RUNNER") runner
        (text "The affected job used a GitHub-hosted runner under the retained runner evidence.")
      ∷ []
    else []

-- `!t.Before(end)` is `After` or `Equal`.
unfoldable pub observed_after : Input → Resource → Bool
unfolding is_zero
observed_after input resource =
    not (is_zero resource.event_time || is_zero input.affected_interval.end)
    && (ltb input.affected_interval.end resource.event_time
        || resource.event_time == input.affected_interval.end)

abbrev resource_fact : Resource → Text → Text → Fact
resource_fact resource basis conclusion = record {
  kind = to_upper resource.kind;
  name = resource.name;
  capability = [];
  basis = basis;
  conclusion = conclusion;
  evidence_ids = unique_evidence resource.evidence_ids;
}

unfoldable pub resource_facts : Input → Resource → List Fact
unfolding unique_evidence same_text to_upper observed_after
resource_facts input r =
    if not (is_nil r.direct_step_key) && same_text r.direct_step_key input.affected_step_key
    then resource_fact r (text "direct-step-attribution") (
        text
          "The resource was directly attributed to the affected step; malicious intent or attacker control was not established.")
      ∷ []
    else if r.direct_job
    then resource_fact r (text "direct-job-attribution") (
        text
          "The resource was created by the same affected job; malicious intent or causation by the affected Action was not established.")
      ∷ []
    else if r.direct_run
    then resource_fact r (text "direct-run-attribution") (
        text
          "The resource was associated with the affected run; attempt, job, step, malicious intent, and causation were not established.")
      ∷ []
    else if observed_after input r
    then resource_fact r (text "temporal-correlation") (
        text
          "The resource was observed after the affected lifecycle; causation and attacker control were not established.")
      ∷ []
    else []
