-- ===== src/Graph/Normalize.antt =====
-- internal/graph/graph.go: `NormalizeAndValidate`, which writes what it normalizes into the graph; on
-- an error the caller has no graph.
use cirewind.Base.{
  ℕ, Bool, true, false, not, ◌&&◌, ◌||◌, Option, none, some, List, [], ◌∷◌, length, is_nil, is_some,
  any, ltb, ◌==◌, if◌then◌else◌, Text, text, same_text, Result, ok, ◌>>=◌, ◌>>◌, refuse_if, Checked,
  check_each,
}
use cirewind.Base.Order.{text_order}
use cirewind.Base.Sort.{sort_by}
use cirewind.Base.Unique.{sorted_unique}
use cirewind.Model.Ids.{validate_evidence_id, validate_finding_revision_id}
use cirewind.Model.Texts.{valid_utf8}
use cirewind.Graph.Types.{NodeType, Node, Edge, Graph}
use cirewind.Graph.Rules.{EndpointRule, endpoint_rule, node_valid, allows}

abbrev pub schema_version : Text
schema_version = text "cirewind.graph/v1alpha1"

abbrev pub max_nodes : ℕ
max_nodes = 100_000

abbrev pub max_edges : ℕ
max_edges = 250_000

abbrev pub max_id_bytes : ℕ
max_id_bytes = 2_048

abbrev pub max_label_bytes : ℕ
max_label_bytes = 4_096

abbrev pub max_rule_bytes : ℕ
max_rule_bytes = 256

abbrev pub max_event_bytes : ℕ
max_event_bytes = 4_096

abbrev pub max_evidence_ids : ℕ
max_evidence_ids = 10_000

-- In valid UTF-8 a byte below 0x80 is a character of its own.
abbrev pub is_prohibited : ℕ → Bool
is_prohibited c = c == 0 || c == 13 || (ltb c 0x20 && not (c == 9) && not (c == 10)) || c == 0x7f

unfoldable pub bounded_text : Text → ℕ → Bool → Checked
unfolding valid_utf8
bounded_text value max empty_ok =
    refuse_if ((not empty_ok && is_nil value) || ltb max (length value) || not (valid_utf8 value))
      "text is empty, invalid UTF-8, or exceeds its limit"
    >> refuse_if (any is_prohibited value) "text contains a prohibited control character"

-- `normalizeEvidenceIDs` and `normalizeFindingIDs`
unfoldable pub normalize_ids : (Text → Checked) → List Text → Result (List Text)
unfolding sorted_unique
normalize_ids check values =
    refuse_if (ltb max_evidence_ids (length (sorted_unique is_nil values))) "too many IDs"
    >> check_each check (sorted_unique is_nil values)
    >> ok (sorted_unique is_nil values)

abbrev pub NodeTypes : Type 0
NodeTypes = List (Text × NodeType)

unfoldable pub find_type : Text → NodeTypes → Option NodeType
unfolding same_text
find_type id [] = none
find_type id ((k, t) ∷ rest) =
    let found = find_type id rest in if same_text k id then some t else found

abbrev pub with_ids : Node → List Text → List Text → Node
with_ids n evidence findings = record n { evidence_ids = evidence; focus_finding_ids = findings }

unfoldable pub check_node : NodeTypes → Node → Result Node
unfolding bounded_text find_type normalize_ids
check_node seen n =
    bounded_text n.id max_id_bytes false
    >> refuse_if (not (node_valid n.kind)) "graph node has invalid identity or type"
    >> bounded_text n.label max_label_bytes false
    >> refuse_if (is_some (find_type n.id seen)) "duplicate graph node"
    >> (normalize_ids validate_evidence_id n.evidence_ids >>= λ evidence.
        normalize_ids validate_finding_revision_id n.focus_finding_ids >>= λ findings.
        ok (with_ids n evidence findings))

abbrev pub seen_node : Node → NodeTypes → NodeTypes
seen_node n seen = (n.id, n.kind) ∷ seen

unfoldable pub check_nodes : NodeTypes → List Node → Result (List Node × NodeTypes)
unfolding check_node
check_nodes seen [] = ok ([], seen)
check_nodes seen (n ∷ rest) = check_node seen n >>= λ m.
    check_nodes (seen_node n seen) rest >>= λ done. ok (m ∷ done.0, done.1)

abbrev pub allows_found : List NodeType → Option NodeType → Bool
allows_found types none = false
allows_found types (some t) = allows types t

abbrev pub obeys : Option EndpointRule → NodeTypes → Text → Text → Bool
obeys none nodes source target = false
obeys (some rule) nodes source target =
    not (same_text source target)
    && allows_found rule.sources (find_type source nodes)
    && allows_found rule.targets (find_type target nodes)

-- The test of an edge's end points, negated.
unfoldable pub joins : NodeTypes → Edge → Bool
unfolding find_type endpoint_rule same_text
joins nodes e = obeys (endpoint_rule e.kind) nodes e.source e.target

abbrev pub with_edge_ids : Edge → List Text → List Text → Edge
with_edge_ids e evidence findings = record e {
  evidence_ids = evidence;
  focus_finding_ids = findings;
}

unfoldable pub check_edge : NodeTypes → List Text → Edge → Result Edge
unfolding bounded_text joins normalize_ids same_text
check_edge nodes seen e =
    bounded_text e.id max_id_bytes false
    >> refuse_if (not (joins nodes e)) "invalid graph edge"
    >> refuse_if (any (same_text e.id) seen) "duplicate graph edge"
    >> (normalize_ids validate_evidence_id e.evidence_ids >>= λ evidence.
        refuse_if (is_nil evidence) "graph edge lacks supporting evidence"
        >> normalize_ids validate_finding_revision_id e.focus_finding_ids
        >>= λ findings.
            bounded_text e.event_time max_event_bytes true
            >> bounded_text e.derivation_rule max_rule_bytes true
            >> refuse_if (e.inferred && is_nil e.derivation_rule)
                "inferred graph edge lacks a derivation rule"
            >> ok (with_edge_ids e evidence findings))

unfoldable pub check_edges : NodeTypes → List Text → List Edge → Result (List Edge)
unfolding check_edge
check_edges nodes seen [] = ok []
check_edges nodes seen (e ∷ rest) =
    check_edge nodes seen e >>= λ f. check_edges nodes (e.id ∷ seen) rest >>= λ done. ok (f ∷ done)

abbrev pub versioned : Text → Text
versioned version = if is_nil version then schema_version else version

abbrev pub node_id : Node → Text
node_id n = n.id

abbrev pub edge_id : Edge → Text
edge_id e = e.id

abbrev pub sorted_graph : List Node → List Edge → Graph
sorted_graph nodes edges = record {
  schema_version = schema_version;
  nodes = sort_by node_id nodes;
  edges = sort_by edge_id edges;
}

unfoldable pub normalize_and_validate : Graph → Result Graph
unfolding check_nodes check_edges sort_by same_text
normalize_and_validate g =
    refuse_if (not (same_text (versioned g.schema_version) schema_version))
      "unsupported graph schema"
    >> refuse_if (ltb max_nodes (length g.nodes) || ltb max_edges (length g.edges))
        "graph exceeds the v0.1 node or edge limit"
    >> (check_nodes [] g.nodes >>= λ nodes.
        check_edges nodes.1 [] g.edges >>= λ edges. ok (sorted_graph nodes.0 edges))
