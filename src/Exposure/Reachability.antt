-- ===== src/Exposure/Reachability.antt =====
-- internal/exposure/exposure.go: what `Analyze` never reports.
use mathlib.Core.Path.{subst, ap₂}
use cirewind.Base.{
  ◌≡◌, refl, sym, ◌∙◌, ap, Bool, true, false, ◌&&◌, not, List, [], ◌∷◌, ◌++◌, arith, text,
  same_text, All, All-append, keep, Bool-cases, inl, inr, is_nil,
}
use cirewind.Base.Order.{text_order, pair_order}
use cirewind.Base.Sort.{sort_by, All-sort_by}
use cirewind.Exposure.Types.{
  SecretFlow, SecretFlowKind, secret_exists_metadata, secret_referenced_by_job,
  secret_passed_to_step, reusable_secret_mapped, reusable_secret_inherited,
  environment_secret_eligible, Input, Fact,
}
use cirewind.Exposure.Facts.{
  permission_facts, runner_facts, observed_after, flow_facts, flow_facts_of, resource_facts, when,
}
use cirewind.Exposure.Permissions.{effective_permissions}
use cirewind.Exposure.Analyze.{
  analyze, gather, found_credentials, found_resources, fact_key, if_started,
}

gather_nothing :
    {A : Type 0} (contribute : A → List Fact)
    → ((x : A) → contribute x ≡ [])
    → (xs : List A) → gather contribute xs ≡ []
gather_nothing contribute h [] = refl
gather_nothing contribute h (x ∷ xs) = rw (h x) (gather_nothing contribute h xs)

All-gather :
    {A : Type 0} (P : Fact → Type 0) (contribute : A → List Fact)
    → ((x : A) → All P (contribute x))
    → (xs : List A) → All P (gather contribute xs)
All-gather P contribute h [] = tt
All-gather P contribute h (x ∷ xs) =
    All-append P (contribute x) (gather contribute xs) (h x) (All-gather P contribute h xs)

abbrev IsCallFact : Fact → Type 0
IsCallFact f = f.basis ≡ text "reusable-workflow-call"

All-when : (P : Fact → Type 0) (b : Bool) (f : Fact) → (b ≡ true → P f) → All P (when b f)
All-when P true f h = (h refl, tt)
All-when P false f h = tt

when_off : (b : Bool) (f : Fact) → b ≡ false → when b f ≡ []
when_off b f h = rw h refl

unstarted_flow :
    (input : Input) (flow : SecretFlow) (kind : SecretFlowKind)
    → input.affected_lifecycle_started ≡ false
    → All IsCallFact (flow_facts_of input flow kind)
unstarted_flow input flow secret_exists_metadata h = tt
unstarted_flow input flow (SecretFlowKind.other v) h = tt
unstarted_flow input flow secret_referenced_by_job h =
    subst (All IsCallFact) (sym (when_off _ _ (ground arith))) tt
unstarted_flow input flow secret_passed_to_step h =
    subst (All IsCallFact) (sym (when_off _ _ (ground arith))) tt
unstarted_flow input flow reusable_secret_mapped h = All-when IsCallFact _ _ (λ e. refl)
unstarted_flow input flow reusable_secret_inherited h = All-when IsCallFact _ _ (λ e. refl)
unstarted_flow input flow environment_secret_eligible h =
    subst (All IsCallFact) (sym (when_off _ _ (ground arith))) tt

-- Flows that no affected step can reach: names known from metadata alone, kinds the code does not
-- know, and flows bound for another step.
abbrev is_elsewhere : Input → SecretFlow → Bool
is_elsewhere input flow =
    not (is_nil flow.destination_step)
    && not (same_text flow.destination_step input.affected_step_key)

abbrev is_idle_kind : Input → SecretFlow → SecretFlowKind → Bool
is_idle_kind input flow secret_exists_metadata = true
is_idle_kind input flow (SecretFlowKind.other v) = true
is_idle_kind input flow reusable_secret_mapped = false
is_idle_kind input flow reusable_secret_inherited = false
is_idle_kind input flow secret_referenced_by_job = is_elsewhere input flow
is_idle_kind input flow secret_passed_to_step = is_elsewhere input flow
is_idle_kind input flow environment_secret_eligible = is_elsewhere input flow

abbrev pub is_idle : Input → SecretFlow → Bool
is_idle input flow = is_idle_kind input flow flow.kind

idle_flow :
    (input : Input) (flow : SecretFlow) (kind : SecretFlowKind)
    → is_idle_kind input flow kind ≡ true
    → flow_facts_of input flow kind ≡ []
idle_flow input flow secret_exists_metadata h = refl
idle_flow input flow (SecretFlowKind.other v) h = refl
idle_flow input flow reusable_secret_mapped h = cc
idle_flow input flow reusable_secret_inherited h = cc
idle_flow input flow secret_referenced_by_job h = when_off _ _ (ground arith)
idle_flow input flow secret_passed_to_step h = when_off _ _ (ground arith)
idle_flow input flow environment_secret_eligible h = when_off _ _ (ground arith)

idle_facts :
    (input : Input) (flow : SecretFlow) → is_idle input flow ≡ true → flow_facts input flow ≡ []
unfolding flow_facts
idle_facts input flow h = idle_flow input flow flow.kind h

gather_idle :
    (input : Input) (flows : List SecretFlow)
    → gather (flow_facts input) (keep (λ f. not (is_idle input f)) flows)
      ≡ gather (flow_facts input) flows
gather_idle input [] = refl
gather_idle input (flow ∷ rest) = elim (Bool-cases (is_idle input flow)) [
  | inl e ↦ rw (e, idle_facts input flow e) (gather_idle input rest)
  | inr e ↦ rw e (ap (λ l. flow_facts input flow ++ l) (gather_idle input rest))
]

unstarted_flows :
    (input : Input) (flow : SecretFlow)
    → input.affected_lifecycle_started ≡ false
    → All IsCallFact (flow_facts input flow)
unfolding flow_facts
unstarted_flows input flow h = unstarted_flow input flow flow.kind h

none_started :
    (input : Input) (facts : List Fact)
    → input.affected_lifecycle_started ≡ false
    → if_started input facts ≡ []
none_started input facts h = rw h refl

unstarted_resources :
    (input : Input) → input.affected_lifecycle_started ≡ false → found_resources input ≡ []
unstarted_resources input h =
    rw
      (
        none_started input (runner_facts input.runner) h,
        gather_nothing (λ r. if_started input (resource_facts input r))
            (λ r. none_started input (resource_facts input r) h) input.resources,
      )
      refl

unstarted_credentials :
    (input : Input)
    → input.affected_lifecycle_started ≡ false
    → All IsCallFact (found_credentials input)
unstarted_credentials input h =
    rw (none_started input (gather permission_facts (effective_permissions input.permissions)) h)
      (All-gather IsCallFact (flow_facts input) (λ f. unstarted_flows input f h) input.secret_flows)

-- Where the affected lifecycle did not start, `Analyze` reports no runner and no resource, and every
-- credential fact is about a reusable workflow's call, none about a token permission or a step.
pub analyze_unstarted :
    (input : Input)
    → input.affected_lifecycle_started ≡ false
    → ((analyze input).resources ≡ [])
      × All (λ f. f.basis ≡ text "reusable-workflow-call") (analyze input).credentials
unfolding analyze
analyze_unstarted input h = (
  ap (sort_by fact_key) (unstarted_resources input h),
  All-sort_by fact_key IsCallFact (found_credentials input) (unstarted_credentials input h),
)

abbrev pub without_idle : Input → Input
without_idle input = record {
  affected_step_key = input.affected_step_key;
  affected_lifecycle_started = input.affected_lifecycle_started;
  job_started = input.job_started;
  permissions = input.permissions;
  secret_flows = keep (λ f. not (is_idle input f)) input.secret_flows;
  environment = input.environment;
  runner = input.runner;
  affected_interval = input.affected_interval;
  step_intervals = input.step_intervals;
  synchronization = input.synchronization;
  resources = input.resources;
}

same_flow :
    (input : Input) (flow : SecretFlow) (kind : SecretFlowKind)
    → flow_facts_of (without_idle input) flow kind ≡ flow_facts_of input flow kind
same_flow input flow secret_exists_metadata = refl
same_flow input flow (SecretFlowKind.other v) = refl
same_flow input flow reusable_secret_mapped = refl
same_flow input flow reusable_secret_inherited = refl
same_flow input flow secret_referenced_by_job = refl
same_flow input flow secret_passed_to_step = refl
same_flow input flow environment_secret_eligible = refl

same_flow_facts :
    (input : Input) (flow : SecretFlow)
    → flow_facts (without_idle input) flow ≡ flow_facts input flow
unfolding flow_facts
same_flow_facts input flow = same_flow input flow flow.kind

same_resources : (input : Input) → found_resources (without_idle input) ≡ found_resources input
unfolding resource_facts observed_after
same_resources input = refl

gather-ext :
    {A : Type 0} (f g : A → List Fact)
    → ((x : A) → f x ≡ g x)
    → (xs : List A) → gather f xs ≡ gather g xs
gather-ext f g h [] = refl
gather-ext f g h (x ∷ xs) = rw (h x, gather-ext f g h xs) refl

same_credentials :
    (input : Input) → found_credentials (without_idle input) ≡ found_credentials input
same_credentials input =
    ap
      (λ facts.
        if_started input (gather permission_facts (effective_permissions input.permissions))
        ++ facts)
      (gather-ext (flow_facts (without_idle input)) (flow_facts input) (same_flow_facts input)
          (keep (λ f. not (is_idle input f)) input.secret_flows)
        ∙ gather_idle input input.secret_flows)

-- `Analyze` reports the same without the secret flows that no affected step can reach: names known
-- from metadata alone, kinds it does not know, and references, step flows and environment secrets
-- whose destination is another step.
pub analyze-without_idle : (input : Input) → analyze (without_idle input) ≡ analyze input
unfolding analyze
analyze-without_idle input =
    ap₂ (λ c r. record { credentials = sort_by fact_key c; resources = sort_by fact_key r })
      (same_credentials input) (same_resources input)
