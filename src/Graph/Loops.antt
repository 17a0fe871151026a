-- ===== src/Graph/Loops.antt =====
-- internal/graph/graph.go: the two loops of `NormalizeAndValidate`.
use mathlib.Core.Path.{subst, ap₂}
use cirewind.Base.{
  ◌≡◌, refl, sym, ◌∙◌, ap, false, Option, none, some, List, [], ◌∷◌, length, suc, Text, same_text,
  Result, ok, ◌>>=◌, arith, All, All-map, if◌then◌else◌, ok->>=, ok-injective, Bool-cases, inl, inr,
}
use cirewind.Base.Order.{text_order}
use cirewind.Base.Apart.{IsApart, find_by, find_by-missing}
use cirewind.Graph.Types.{NodeType, Node}
use cirewind.Graph.Normalize.{find_type, seen_node, check_node, check_nodes, node_id, NodeTypes}
use cirewind.Graph.Checks.{IsNormalNode, CheckedNode, check_node_ok, check_node-fixed}

abbrev pub types_after : NodeTypes → List Node → NodeTypes
types_after seen [] = seen
types_after seen (n ∷ rest) = types_after (seen_node n seen) rest

pub record CheckedNodes (seen : NodeTypes) (before after : List Node) (types : NodeTypes)
    : Type 0 where
  pub normal : All IsNormalNode after
  pub apart : IsApart node_id after
  pub unseen : All (λ n. find_type n.id seen ≡ none) after
  pub types_are : types ≡ types_after seen after
  pub same_length : length after ≡ length before

seen_split :
    (n : Node) (seen : NodeTypes) (id : Text)
    → find_type id (seen_node n seen) ≡ none
    → (same_text n.id id ≡ false) × (find_type id seen ≡ none)
unfolding find_type
seen_split n seen id h = ground arith

seen_join :
    (n : Node) (seen : NodeTypes) (id : Text)
    → (same_text n.id id ≡ false) × (find_type id seen ≡ none)
    → find_type id (seen_node n seen) ≡ none
unfolding find_type
seen_join n seen id h = ground arith

one_more :
    (seen : NodeTypes) (n m : Node) (before after : List Node) (types : NodeTypes)
    → CheckedNode seen n m
    → CheckedNodes (seen_node n seen) before after types
    → CheckedNodes seen (n ∷ before) (m ∷ after) types
one_more seen n m before after types c r = record {
  normal = (c.normal, r.normal);
  apart = (
    All-map (λ y. find_type y.id (seen_node n seen) ≡ none) (λ y. same_text m.id y.id ≡ false)
        (λ y h. subst (λ i. same_text i y.id ≡ false) (sym c.same_id) (seen_split n seen y.id h).0)
        after r.unseen,
    r.apart,
  );
  unseen = (
    subst (λ i. find_type i seen ≡ none) (sym c.same_id) c.unseen,
    All-map (λ y. find_type y.id (seen_node n seen) ≡ none) (λ y. find_type y.id seen ≡ none)
        (λ y h. (seen_split n seen y.id h).1) after r.unseen,
  );
  types_are =
      r.types_are
      ∙ ap₂ (λ i k. types_after ((i, k) ∷ seen) after) (sym c.same_id) (sym c.same_kind);
  same_length = ap suc r.same_length;
}

abbrev after_node : Node → List Node × NodeTypes → Result (List Node × NodeTypes)
after_node m done = ok (m ∷ done.0, done.1)

pub check_nodes_ok :
    (seen : NodeTypes) (nodes : List Node) (r : List Node × NodeTypes)
    → check_nodes seen nodes ≡ ok r
    → CheckedNodes seen nodes r.0 r.1
unfolding check_nodes
check_nodes_ok seen [] r h =
    subst (λ q. CheckedNodes seen [] q.0 q.1) (ok-injective ([], seen) r h)
      record { normal = tt; apart = tt; unseen = tt; types_are = refl; same_length = refl }
check_nodes_ok seen (n ∷ rest) r h =
    let a =
      ok->>= (check_node seen n) (λ m. check_nodes (seen_node n seen) rest >>= after_node m) r h in
    let b = ok->>= (check_nodes (seen_node n seen) rest) (after_node a.0) r a.1.1 in
    subst (λ q. CheckedNodes seen (n ∷ rest) q.0 q.1) (ok-injective (a.0 ∷ b.0.0, b.0.1) r b.1.1)
      (one_more seen n a.0 rest b.0.0 b.0.1 (check_node_ok seen n a.0 a.1.0)
        (check_nodes_ok (seen_node n seen) rest b.0 b.1.0))

-- Nodes in normal form, each identifier new, are left as they are.
pub check_nodes-fixed :
    (seen : NodeTypes) (nodes : List Node)
    → All IsNormalNode nodes
    → IsApart node_id nodes
    → All (λ n. find_type n.id seen ≡ none) nodes
    → check_nodes seen nodes ≡ ok (nodes, types_after seen nodes)
unfolding check_nodes
check_nodes-fixed seen [] h a u = refl
check_nodes-fixed seen (n ∷ rest) h a u =
    rw
      (
        check_node-fixed seen n h.0 u.0,
        check_nodes-fixed (seen_node n seen) rest h.1 a.1 (still_unseen rest a.0 u.1),
      )
      refl
  where
    still_unseen :
        (l : List Node)
        → All (λ y. same_text n.id y.id ≡ false) l
        → All (λ y. find_type y.id seen ≡ none) l
        → All (λ y. find_type y.id (seen_node n seen) ≡ none) l
    still_unseen [] p q = tt
    still_unseen (y ∷ l) p q = (seen_join n seen y.id (p.0, q.0), still_unseen l p.1 q.1)

abbrev pub kind_or : Option Node → Option NodeType → Option NodeType
kind_or none other = other
kind_or (some n) other = some n.kind

find_seen_node :
    (id : Text) (n : Node) (seen : NodeTypes)
    → find_type id (seen_node n seen)
      ≡ (if same_text n.id id then some n.kind else find_type id seen)
unfolding find_type
find_seen_node id n seen = refl

-- The map of types has the type of the node with an identifier.
pub find_type-types_after :
    (id : Text) (seen : NodeTypes) (nodes : List Node)
    → IsApart node_id nodes
    → find_type id (types_after seen nodes) ≡ kind_or (find_by node_id id nodes) (find_type id seen)
find_type-types_after id seen [] a = refl
find_type-types_after id seen (n ∷ rest) a =
    find_type-types_after id (seen_node n seen) rest a.1 ∙ first_of
  where
    first_of :
        kind_or (find_by node_id id rest) (find_type id (seen_node n seen))
        ≡ kind_or
            (if same_text n.id id then some n else find_by node_id id rest)
            (find_type id seen)
    first_of = elim (Bool-cases (same_text n.id id)) [
      | inl e ↦ rw (e, find_seen_node id n seen, e, find_by-missing node_id n id rest a.0 e) refl
      | inr e ↦ rw (e, find_seen_node id n seen, e) refl
    ]
