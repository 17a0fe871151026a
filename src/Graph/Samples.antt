-- ===== src/Graph/Samples.antt =====
-- A job and its step, given in the wrong order.
use cirewind.Base.{◌≡◌, refl, false, [], ◌∷◌, Text, text, ok, err, check_each}
use cirewind.Base.Order.{text_less}
use cirewind.Model.Ids.{validate_versioned_id}
use cirewind.Graph.Types.{Node, Edge, Graph, job_node, step_node, step_in_job}
use cirewind.Graph.Normalize.{normalize_and_validate}
use cirewind.Graph.Valid.{IsValid, normalize_and_validate-IsValid}
use cirewind.Graph.Canonical.{normalize_and_validate-fixed}

abbrev evidence_id : Text
evidence_id = text "ev1:0123456789abcdef0123456789abcdef0123456789abcdef0123456789abcdef"

abbrev job : Node
job = record {
  id = text "job:7";
  kind = job_node;
  label = text "build";
  evidence_ids = evidence_id ∷ [] ∷ evidence_id ∷ [];
  focus_finding_ids = [];
}

abbrev step : Node
step = record {
  id = text "a-step";
  kind = step_node;
  label = text "run";
  evidence_ids = [];
  focus_finding_ids = [];
}

abbrev in_job : Edge
in_job = record {
  id = text "e1";
  kind = step_in_job;
  source = text "job:7";
  target = text "a-step";
  evidence_ids = evidence_id ∷ evidence_id ∷ [];
  derivation_rule = [];
  event_time = [];
  inferred = false;
  focus_finding_ids = [];
}

abbrev given : Graph
given = record { schema_version = []; nodes = job ∷ step ∷ []; edges = in_job ∷ [] }

abbrev normal : Graph
normal = record {
  schema_version = text "cirewind.graph/v1alpha1";
  nodes = step ∷ record job { evidence_ids = evidence_id ∷ [] } ∷ [];
  edges = record in_job { evidence_ids = evidence_id ∷ [] } ∷ [];
}

given_normalized : normalize_and_validate given ≡ ok normal
unfolding normalize_and_validate validate_versioned_id text_less check_each
given_normalized = refl

backwards_refused :
    normalize_and_validate
      record given { edges = record in_job { source = text "a-step"; target = text "job:7" } ∷ [] }
    ≡ err "invalid graph edge"
unfolding normalize_and_validate validate_versioned_id text_less check_each
backwards_refused = refl

normalize_and_validate-IsValid_example : IsValid normal
normalize_and_validate-IsValid_example =
    normalize_and_validate-IsValid given normal given_normalized

normalize_and_validate-fixed_example : normalize_and_validate normal ≡ ok normal
normalize_and_validate-fixed_example = normalize_and_validate-fixed given normal given_normalized
