-- ===== src/Exposure/Analyze.antt =====
-- internal/exposure/exposure.go: `Analyze` and `HappensBefore`.
use cirewind.Base.{
  Bool, false, ◌&&◌, ◌||◌, not, Option, none, some, List, [], ◌∷◌, ◌++◌, if◌then◌else◌, is_nil, any,
  Text, same_text,
}
use cirewind.Base.Order.{text_order, pair_order}
use cirewind.Base.Sort.{sort_by}
use cirewind.Base.Time.{is_zero, before}
use cirewind.Exposure.Types.{Input, Fact, Reach, StepInterval, SynchronizationEdge}
use cirewind.Exposure.Permissions.{effective_permissions}
use cirewind.Exposure.Facts.{permission_facts, flow_facts, runner_facts, resource_facts}

abbrev pub fact_key : Fact → Text × (Text × Text)
fact_key f = (f.kind, (f.name, f.basis))

-- A loop that appends what each element contributes.
abbrev pub gather : {A : Type 0} → (A → List Fact) → List A → List Fact
gather contribute [] = []
gather contribute (x ∷ xs) = contribute x ++ gather contribute xs

abbrev pub if_started : Input → List Fact → List Fact
if_started input facts = if input.affected_lifecycle_started then facts else []

-- Before the sorts.
abbrev pub found_credentials : Input → List Fact
found_credentials input =
    if_started input (gather permission_facts (effective_permissions input.permissions))
    ++ gather (flow_facts input) input.secret_flows

abbrev pub found_resources : Input → List Fact
found_resources input =
    if_started input (runner_facts input.runner)
    ++ gather (λ r. if_started input (resource_facts input r)) input.resources

unfoldable pub analyze : Input → Reach
unfolding effective_permissions permission_facts flow_facts runner_facts resource_facts sort_by
analyze input = record {
  credentials = sort_by fact_key (found_credentials input);
  resources = sort_by fact_key (found_resources input);
}

unfoldable pub find_interval : Text → List (Text × StepInterval) → Option StepInterval
unfolding same_text
find_interval step [] = none
find_interval step ((k, v) ∷ rest) =
    let found = find_interval step rest in if same_text k step then some v else found

abbrev pub ends_before : Option StepInterval → Option StepInterval → Bool
ends_before (some from) (some to) =
    not (is_zero from.end) && not (is_zero to.start) && before from.end to.start
ends_before _ _ = false

abbrev pub synchronizes : Text → Text → SynchronizationEdge → Bool
synchronizes from to edge =
    same_text edge.from_step from && same_text edge.to_step to && not (is_nil edge.evidence_ids)

unfoldable pub happens_before :
    Text → Text → List (Text × StepInterval) → List SynchronizationEdge → Bool
unfolding find_interval is_zero same_text
happens_before from to intervals edges =
    ends_before (find_interval from intervals) (find_interval to intervals)
    || any (synchronizes from to) edges
