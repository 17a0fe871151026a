-- ===== src/Exposure/Samples.antt =====
-- Inputs to the exposure rules.
use cirewind.Base.{
  ◌≡◌, ◌↔◌, ◌⊎◌, refl, ◌+◌, ◌*◌, true, false, [], ◌∷◌, some, text, map, arith, ℕ, if◌then◌else◌,
  ◌==◌, List, Text, All,
}
use cirewind.Base.Int.{pos}
use cirewind.Base.Order.{text_less}
use cirewind.Base.Time.{zero_time, second}
use cirewind.Exposure.Types.{
  Permission, SecretFlow, secret_passed_to_step, reusable_secret_inherited, secret_exists_metadata,
  Input, StepInterval, SynchronizationEdge,
}
use cirewind.Exposure.Permissions.{find_permission, effective_permissions}
use cirewind.Exposure.Stored.{Slice, Store, Stored, read, effective_stored}
use cirewind.Exposure.Unshared.{IsHeld}
use cirewind.Exposure.Refinement.{effective_stored-read}
use cirewind.Exposure.Analyze.{analyze, happens_before}
use cirewind.Exposure.Order.{happens_before_iff, Separate, HasEdge}
use cirewind.Exposure.Reachability.{analyze_unstarted, analyze-without_idle, without_idle}

abbrev declared_contents : Permission
declared_contents = record {
  name = text "contents";
  access = text "read";
  basis = text "static-inferred";
  evidence_ids = text "ev1:d" ∷ [];
}

abbrev observed_contents : Permission
observed_contents = record {
  name = text "Contents";
  access = text "Write";
  basis = text "runtime-observed";
  evidence_ids = text "ev1:r" ∷ text "ev1:a" ∷ [];
}

abbrev two_permissions : List Permission
two_permissions = observed_contents ∷ declared_contents ∷ []

abbrev elsewhere : SecretFlow
elsewhere = record {
  name = text "deploy_key";
  kind = secret_passed_to_step;
  destination_step = text "publish";
  call_hop = pos 0;
  evidence_ids = text "ev1:s" ∷ [];
}

abbrev inherited : SecretFlow
inherited = record elsewhere { kind = reusable_secret_inherited; call_hop = pos 1 }

abbrev input : Input
input = record {
  affected_step_key = text "build";
  affected_lifecycle_started = false;
  job_started = true;
  permissions = two_permissions;
  secret_flows = elsewhere ∷ inherited ∷ record elsewhere { kind = secret_exists_metadata } ∷ [];
  environment = record {
    name = [];
    targeted = false;
    crossed = false;
    job_started = false;
    evidence_ids = [];
  };
  runner = record {
    classification = text "self-hosted";
    id = pos 7;
    name = text "runner";
    group = [];
    labels = [];
    evidence_ids = [];
  };
  affected_interval = record { start = zero_time + second; end = zero_time + 2 * second };
  step_intervals = [];
  synchronization = [];
  resources = [];
}

abbrev started : Input
started = record input { affected_lifecycle_started = true }

effective_contents :
    find_permission (text "contents") (effective_permissions two_permissions)
    ≡ some (record {
      name = text "contents";
      access = text "write";
      basis = text "runtime-observed";
      evidence_ids = text "ev1:a" ∷ text "ev1:r" ∷ [];
    })
unfolding effective_permissions text_less
effective_contents = refl

abbrev first_lists : ℕ → List Text
first_lists a =
    if a == 0
    then text "b" ∷ text "a" ∷ text "a" ∷ []
    else if a == 1
    then text "c" ∷ []
    else if a == 2
    then text "d" ∷ text "d" ∷ []
    else []

abbrev memory : Store
memory = record { arrays = first_lists; fresh = 3 }

abbrev stored : Text → Slice → Stored
stored name s = record {
  name = name;
  access = text "write";
  basis = text "runtime-observed";
  evidence = s;
}

abbrev slice : ℕ → ℕ → Slice
slice a n = record { array = a; count = n }

abbrev unshared : List Stored
unshared =
    stored (text "contents") (slice 0 3)
    ∷ stored (text "contents") (slice 1 1)
    ∷ stored (text "issues") (slice 2 2)
    ∷ []

-- The issues have the slice of the first contents.
abbrev shared : List Stored
shared =
    stored (text "contents") (slice 0 3)
    ∷ stored (text "contents") (slice 1 1)
    ∷ stored (text "issues") (slice 0 3)
    ∷ []

abbrev no_more : List Text → List Text
no_more xs = []

-- The append of c for the contents is read as evidence of the issues.
shared_issues :
    find_permission (text "issues") (effective_stored no_more shared memory)
    ≡ some (record {
      name = text "issues";
      access = text "write";
      basis = text "runtime-observed";
      evidence_ids = text "a" ∷ text "b" ∷ text "c" ∷ [];
    })
unfolding effective_stored text_less find_permission
shared_issues = refl

unshared-IsHeld : All (λ (p : Stored). IsHeld memory p.evidence) unshared
unshared-IsHeld = (
  record { used = omega arith; fits = omega arith },
  (
    record { used = omega arith; fits = omega arith },
    (record { used = omega arith; fits = omega arith }, tt),
  ),
)

effective_stored-read_example :
    effective_stored no_more unshared memory ≡ effective_permissions (map (read memory) unshared)
effective_stored-read_example =
    effective_stored-read no_more memory unshared ((refl, (refl, tt)), ((refl, tt), (tt, tt)))
      unshared-IsHeld

analyze_unstarted_example :
    ((analyze input).resources ≡ [])
    × All (λ f. f.basis ≡ text "reusable-workflow-call") (analyze input).credentials
analyze_unstarted_example = analyze_unstarted input refl

analyze-without_idle_example : analyze (without_idle started) ≡ analyze started
analyze-without_idle_example = analyze-without_idle started

abbrev intervals : List (Text × StepInterval)
intervals =
    (text "a", record { start = zero_time + second; end = zero_time + 2 * second })
    ∷ (text "b", record { start = zero_time + 3 * second; end = zero_time + 4 * second })
    ∷ (text "c", record { start = zero_time + 5 * second; end = zero_time + 6 * second })
    ∷ []

abbrev step_a : Text
step_a = text "a"

abbrev step_b : Text
step_b = text "b"

abbrev handover : SynchronizationEdge
handover = record { from_step = step_b; to_step = step_a; evidence_ids = text "ev1:w" ∷ [] }

a_before_b : happens_before step_a step_b intervals [] ≡ true
unfolding happens_before zero_time
a_before_b = refl

b_before_a : happens_before step_b step_a intervals (handover ∷ []) ≡ true
unfolding happens_before zero_time
b_before_a = refl

unordered : happens_before step_b step_a intervals [] ≡ false
unfolding happens_before zero_time
unordered = refl

happens_before_iff_example :
    (happens_before step_b step_a intervals (handover ∷ []) ≡ true)
    ↔ (Separate step_b step_a intervals ⊎ HasEdge step_b step_a (handover ∷ []))
happens_before_iff_example = happens_before_iff step_b step_a intervals (handover ∷ [])
