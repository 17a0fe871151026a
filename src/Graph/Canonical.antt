-- ===== src/Graph/Canonical.antt =====
-- internal/graph/graph.go: the normal form is left as it is.
use mathlib.Core.Path.{subst}
use cirewind.Base.{
  ◌≡◌, refl, ◌∙◌, ap, true, false, ◌||◌, none, List, [], ◌∷◌, any, length, ltb, same_text, ok, All,
  All-map,
}
use cirewind.Base.Order.{text_order}
use cirewind.Base.Sort.{sort_by, All-sort_by, length-sort_by}
use cirewind.Base.Apart.{sort_by-IsAscending, sort_by-IsApart, sort_by-fixed}
use cirewind.Graph.Types.{Node, Edge, Graph}
use cirewind.Graph.Normalize.{
  NodeTypes, find_type, check_nodes, check_edges, node_id, edge_id, joins, normalize_and_validate,
  sorted_graph, schema_version, max_nodes, max_edges,
}
use cirewind.Graph.Checks.{IsNormalNode, IsNormalEdge}
use cirewind.Graph.Loops.{types_after, check_nodes-fixed}
use cirewind.Graph.EdgeLoop.{check_edges-fixed}
use cirewind.Graph.Valid.{Run, Run-of, joins-sorted, find_nothing}

all_unseen : (nodes : List Node) → All (λ n. find_type n.id [] ≡ none) nodes
all_unseen [] = tt
all_unseen (n ∷ rest) = (find_nothing n.id, all_unseen rest)

all_new : (edges : List Edge) → All (λ e. any (same_text e.id) [] ≡ false) edges
all_new [] = tt
all_new (e ∷ rest) = (refl, all_new rest)

-- The steps of a run over a graph in its order.
replay :
    (nodes : List Node) (edges : List Edge) (types : NodeTypes)
    → (ltb max_nodes (length nodes) || ltb max_edges (length edges)) ≡ false
    → check_nodes [] nodes ≡ ok (nodes, types)
    → check_edges types [] edges ≡ ok edges
    → normalize_and_validate
        record { schema_version = schema_version; nodes = nodes; edges = edges }
      ≡ ok (sorted_graph nodes edges)
unfolding normalize_and_validate
replay nodes edges types few e f = rw (few, e, f) refl

module _ (g h : Graph) (r : Run g h) where
  abbrev nodes : List Node
  nodes = sort_by node_id r.nodes

  abbrev edges : List Edge
  edges = sort_by edge_id r.edges

  nodes_again : check_nodes [] nodes ≡ ok (nodes, types_after [] nodes)
  nodes_again =
      check_nodes-fixed [] nodes (All-sort_by node_id IsNormalNode r.nodes r.nodes_checked.normal)
        (sort_by-IsApart node_id r.nodes r.nodes_checked.apart) (all_unseen nodes)

  still_joined : (e : Edge) → joins r.types e ≡ true → joins (types_after [] nodes) e ≡ true
  still_joined e j =
      joins-sorted r.nodes e r.nodes_checked.apart
      ∙ subst (λ t. joins t e ≡ true) r.nodes_checked.types_are j

  edges_again : check_edges (types_after [] nodes) [] edges ≡ ok edges
  edges_again =
      check_edges-fixed (types_after [] nodes) [] edges
        (All-sort_by edge_id IsNormalEdge r.edges r.edges_checked.normal)
        (All-sort_by edge_id (λ e. joins (types_after [] nodes) e ≡ true) r.edges
          (All-map (λ e. joins r.types e ≡ true) (λ e. joins (types_after [] nodes) e ≡ true)
            still_joined r.edges r.edges_checked.joined))
        (sort_by-IsApart edge_id r.edges r.edges_checked.apart) (all_new edges)

  still_few : (ltb max_nodes (length nodes) || ltb max_edges (length edges)) ≡ false
  still_few =
      rw
        (
          length-sort_by node_id r.nodes,
          length-sort_by edge_id r.edges,
          r.nodes_checked.same_length,
          r.edges_checked.same_length,
        )
        r.few

  sorted_again : sorted_graph nodes edges ≡ sorted_graph r.nodes r.edges
  sorted_again =
      rw
        (
          sort_by-fixed node_id nodes (sort_by-IsAscending node_id r.nodes r.nodes_checked.apart),
          sort_by-fixed edge_id edges (sort_by-IsAscending edge_id r.edges r.edges_checked.apart),
        )
        refl

  run_again :
      normalize_and_validate (sorted_graph r.nodes r.edges) ≡ ok (sorted_graph r.nodes r.edges)
  run_again =
      replay nodes edges (types_after [] nodes) still_few nodes_again edges_again
      ∙ ap ok sorted_again

-- `NormalizeAndValidate` is idempotent: the graph that it leaves is accepted again, and every
-- identifier list, node and edge of it stays as it is and where it is.
pub normalize_and_validate-fixed :
    (g h : Graph) → normalize_and_validate g ≡ ok h → normalize_and_validate h ≡ ok h
normalize_and_validate-fixed g h e =
    let r = Run-of g h e in subst (λ k. normalize_and_validate k ≡ ok k) r.result (run_again g h r)
