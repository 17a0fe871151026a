-- ===== src/Graph/Valid.antt =====
-- internal/graph/graph.go: what `NormalizeAndValidate` guarantees of the graph it leaves.
use mathlib.Core.Path.{subst}
use cirewind.Base.{
  ◌≡◌, refl, sym, ◌∙◌, Bool, true, false, not, ◌&&◌, ◌||◌, Option, none, some, List, [], ◌∷◌, any,
  length, ltb, is_nil, Text, same_text, Result, ok, ◌>>◌, ◌>>=◌, refuse_if, arith, All, All-map,
  ok->>=, ok->>, ok-injective, passes->>, passes-refuse_if, &&-eq_true, Checked,
}
use cirewind.Base.Order.{text_order}
use cirewind.Base.Sort.{sort_by, All-sort_by}
use cirewind.Base.Apart.{
  IsApart, IsAscending, sort_by-IsAscending, sort_by-IsApart, find_by, find_by-sort_by,
}
use cirewind.Graph.Types.{NodeType, Node, Edge, Graph}
use cirewind.Graph.Rules.{EndpointRule, endpoint_rule, allows}
use cirewind.Graph.Normalize.{
  NodeTypes, find_type, check_nodes, check_edges, node_id, edge_id, joins, obeys, allows_found,
  normalize_and_validate, sorted_graph, versioned, schema_version, max_nodes, max_edges,
}
use cirewind.Graph.Checks.{IsNormalEdge}
use cirewind.Graph.Loops.{CheckedNodes, check_nodes_ok, types_after, find_type-types_after, kind_or}
use cirewind.Graph.EdgeLoop.{CheckedEdges, check_edges_ok}

-- What a successful run did.
pub record Run (g h : Graph) : Type 0 where
  pub nodes : List Node
  pub types : NodeTypes
  pub edges : List Edge
  pub nodes_checked : CheckedNodes [] g.nodes nodes types
  pub edges_checked : CheckedEdges types [] g.edges edges
  pub few : (ltb max_nodes (length g.nodes) || ltb max_edges (length g.edges)) ≡ false
  pub result : sorted_graph nodes edges ≡ h

abbrev version_check : Graph → Checked
version_check g =
    refuse_if (not (same_text (versioned g.schema_version) schema_version))
      "unsupported graph schema"

abbrev size_check : Graph → Checked
size_check g =
    refuse_if (ltb max_nodes (length g.nodes) || ltb max_edges (length g.edges))
      "graph exceeds the v0.1 node or edge limit"

abbrev after_nodes : Graph → List Node × NodeTypes → Result Graph
after_nodes g nodes = check_edges nodes.1 [] g.edges >>= λ edges. ok (sorted_graph nodes.0 edges)

pub Run-of : (g h : Graph) → normalize_and_validate g ≡ ok h → Run g h
unfolding normalize_and_validate
Run-of g h e =
    let checked =
      ok->> (version_check g >> size_check g) (check_nodes [] g.nodes >>= after_nodes g) h e in
    let sizes = passes->> (version_check g) (size_check g) checked.0 in
    let a = ok->>= (check_nodes [] g.nodes) (after_nodes g) h checked.1 in
    let b =
      ok->>= (check_edges a.0.1 [] g.edges) (λ edges. ok (sorted_graph a.0.0 edges)) h a.1.1 in
    record {
      nodes = a.0.0;
      types = a.0.1;
      edges = b.0;
      nodes_checked = check_nodes_ok [] g.nodes a.0 a.1.0;
      edges_checked = check_edges_ok a.0.1 [] g.edges b.0 b.1.0;
      few =
          passes-refuse_if (ltb max_nodes (length g.nodes) || ltb max_edges (length g.edges))
            "graph exceeds the v0.1 node or edge limit" sizes.1;
      result = ok-injective (sorted_graph a.0.0 b.0) h b.1.1;
    }

pub find_nothing : (id : Text) → find_type id [] ≡ none
unfolding find_type
find_nothing id = refl

-- The type of a node, found in the sorted slice or in the map of types.
types_of_sorted :
    (id : Text) (nodes : List Node)
    → IsApart node_id nodes
    → find_type id (types_after [] nodes)
      ≡ kind_or (find_by node_id id (sort_by node_id nodes)) none
types_of_sorted id nodes a =
    find_type-types_after id [] nodes a
    ∙ rw (find_nothing id, find_by-sort_by node_id id nodes a) refl

obeys-ext :
    (rule : Option EndpointRule) (m n : NodeTypes) (source target : Text)
    → find_type source m ≡ find_type source n
    → find_type target m ≡ find_type target n
    → obeys rule m source target ≡ obeys rule n source target
obeys-ext none m n source target e f = refl
obeys-ext (some rule) m n source target e f = rw (e, f) refl

pub joins-sorted :
    (nodes : List Node) (e : Edge)
    → IsApart node_id nodes
    → joins (types_after [] (sort_by node_id nodes)) e ≡ joins (types_after [] nodes) e
unfolding joins
joins-sorted nodes e a =
    obeys-ext (endpoint_rule e.kind) (types_after [] (sort_by node_id nodes)) (types_after [] nodes)
      e.source e.target (same_type_of e.source) (same_type_of e.target)
  where
    same_type_of :
        (id : Text)
        → find_type id (types_after [] (sort_by node_id nodes))
          ≡ find_type id (types_after [] nodes)
    same_type_of id =
        find_type-types_after id [] (sort_by node_id nodes) (sort_by-IsApart node_id nodes a)
        ∙ rw (find_nothing id) (sym (types_of_sorted id nodes a))

-- Some node of the graph has the identifier and a type that is allowed.
abbrev pub has_end : List NodeType → List Node → Text → Bool
has_end types nodes id = any (λ n. same_text n.id id && allows types n.kind) nodes

abbrev pub linked : Option EndpointRule → List Node → Text → Text → Bool
linked none nodes source target = false
linked (some rule) nodes source target =
    not (same_text source target)
    && has_end rule.sources nodes source
    && has_end rule.targets nodes target

abbrev pub links : List Node → Edge → Bool
links nodes e = linked (endpoint_rule e.kind) nodes e.source e.target

has_end-found :
    (types : List NodeType) (nodes : List Node) (id : Text)
    → allows_found types (kind_or (find_by node_id id nodes) none) ≡ true
    → has_end types nodes id ≡ true
has_end-found types [] id h = cc
has_end-found types (n ∷ rest) id h = ground (arith, has_end-found types rest id)

linked-obeys :
    (rule : Option EndpointRule) (types : NodeTypes) (nodes : List Node) (source target : Text)
    → ((id : Text) → find_type id types ≡ kind_or (find_by node_id id nodes) none)
    → obeys rule types source target ≡ true
    → linked rule nodes source target ≡ true
linked-obeys none types nodes source target h e = e
linked-obeys (some rule) types nodes source target h e =
    let outer =
      &&-eq_true
        (not (same_text source target) && allows_found rule.sources (find_type source types))
        (allows_found rule.targets (find_type target types)) e in
    let inner =
      &&-eq_true (not (same_text source target))
        (allows_found rule.sources (find_type source types)) outer.0 in
    rw
      (
        inner.0,
        has_end-found rule.sources nodes source
            (subst (λ t. allows_found rule.sources t ≡ true) (h source) inner.1),
        has_end-found rule.targets nodes target
            (subst (λ t. allows_found rule.targets t ≡ true) (h target) outer.1),
      )
      refl

links-joins :
    (nodes : List Node) (e : Edge)
    → IsApart node_id nodes
    → joins (types_after [] nodes) e ≡ true
    → links (sort_by node_id nodes) e ≡ true
unfolding joins
links-joins nodes e a j =
    linked-obeys (endpoint_rule e.kind) (types_after [] nodes) (sort_by node_id nodes) e.source
      e.target (λ id. types_of_sorted id nodes a) j

pub record IsValid (g : Graph) : Type 0 where
  pub nodes_ascend : IsAscending node_id g.nodes
  pub edges_ascend : IsAscending edge_id g.edges
  pub edges_link : All (λ e. links g.nodes e ≡ true) g.edges
  pub edges_supported : All (λ e. is_nil e.evidence_ids ≡ false) g.edges

sorted-IsValid : (g h : Graph) (r : Run g h) → IsValid (sorted_graph r.nodes r.edges)
sorted-IsValid g h r = record {
  nodes_ascend = sort_by-IsAscending node_id r.nodes r.nodes_checked.apart;
  edges_ascend = sort_by-IsAscending edge_id r.edges r.edges_checked.apart;
  edges_link =
      All-sort_by edge_id (λ e. links (sort_by node_id r.nodes) e ≡ true) r.edges
        (All-map (λ e. joins r.types e ≡ true) (λ e. links (sort_by node_id r.nodes) e ≡ true)
          (λ e j.
            links-joins r.nodes e r.nodes_checked.apart
              (subst (λ t. joins t e ≡ true) r.nodes_checked.types_are j))
          r.edges r.edges_checked.joined);
  edges_supported =
      All-sort_by edge_id (λ e. is_nil e.evidence_ids ≡ false) r.edges
        (All-map IsNormalEdge (λ e. is_nil e.evidence_ids ≡ false) (λ e n. n.supported) r.edges
          r.edges_checked.normal);
}

-- In the graph that `NormalizeAndValidate` leaves, no two nodes and no two edges have one
-- identifier, and both are in ascending order of it; every edge joins two different nodes of the
-- graph, of types that its own type allows for its ends, and names supporting evidence.
pub normalize_and_validate-IsValid : (g h : Graph) → normalize_and_validate g ≡ ok h → IsValid h
normalize_and_validate-IsValid g h e =
    let r = Run-of g h e in subst IsValid r.result (sorted-IsValid g h r)
