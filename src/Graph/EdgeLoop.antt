-- ===== src/Graph/EdgeLoop.antt =====
-- internal/graph/graph.go: the loop of `NormalizeAndValidate` over the edges.
use mathlib.Core.Path.{subst}
use cirewind.Base.{
  ◌≡◌, refl, sym, ap, true, false, List, [], ◌∷◌, any, length, suc, Text, same_text, Result, ok,
  ◌>>=◌, All, All-map, ok->>=, ok-injective, ||-eq_false,
}
use cirewind.Base.Order.{text_order}
use cirewind.Base.Apart.{IsApart, same_sym}
use cirewind.Graph.Types.{Edge}
use cirewind.Graph.Normalize.{check_edge, check_edges, edge_id, joins, NodeTypes}
use cirewind.Graph.Checks.{IsNormalEdge, CheckedEdge, check_edge_ok, check_edge-fixed}

pub record CheckedEdges (nodes : NodeTypes) (seen : List Text) (before after : List Edge)
    : Type 0 where
  pub normal : All IsNormalEdge after
  pub joined : All (λ e. joins nodes e ≡ true) after
  pub apart : IsApart edge_id after
  pub unseen : All (λ e. any (same_text e.id) seen ≡ false) after
  pub same_length : length after ≡ length before

one_more_edge :
    (nodes : NodeTypes) (seen : List Text) (e f : Edge) (before after : List Edge)
    → CheckedEdge nodes seen e f
    → CheckedEdges nodes (e.id ∷ seen) before after
    → CheckedEdges nodes seen (e ∷ before) (f ∷ after)
one_more_edge nodes seen e f before after c r = record {
  normal = (c.normal, r.normal);
  joined = (c.joined, r.joined);
  apart = (
    All-map (λ y. any (same_text y.id) (e.id ∷ seen) ≡ false) (λ y. same_text f.id y.id ≡ false)
        (λ y h. differs y h) after r.unseen,
    r.apart,
  );
  unseen = (
    subst (λ i. any (same_text i) seen ≡ false) (sym c.same_id) c.unseen,
    All-map (λ y. any (same_text y.id) (e.id ∷ seen) ≡ false)
        (λ y. any (same_text y.id) seen ≡ false)
        (λ y h. (||-eq_false (same_text y.id e.id) (any (same_text y.id) seen) h).1) after r.unseen,
  );
  same_length = ap suc r.same_length;
}
  where
    differs : (y : Edge) → any (same_text y.id) (e.id ∷ seen) ≡ false → same_text f.id y.id ≡ false
    differs y h =
        subst (λ i. same_text i y.id ≡ false) (sym c.same_id)
          (same_sym edge_id y.id e.id
            (||-eq_false (same_text y.id e.id) (any (same_text y.id) seen) h).0)

abbrev after_edge : Edge → List Edge → Result (List Edge)
after_edge f done = ok (f ∷ done)

pub check_edges_ok :
    (nodes : NodeTypes) (seen : List Text) (edges r : List Edge)
    → check_edges nodes seen edges ≡ ok r
    → CheckedEdges nodes seen edges r
unfolding check_edges
check_edges_ok nodes seen [] r h =
    subst (CheckedEdges nodes seen []) (ok-injective [] r h)
      record { normal = tt; joined = tt; apart = tt; unseen = tt; same_length = refl }
check_edges_ok nodes seen (e ∷ rest) r h =
    let a =
      ok->>= (check_edge nodes seen e) (λ f. check_edges nodes (e.id ∷ seen) rest >>= after_edge f)
        r h in
    let b = ok->>= (check_edges nodes (e.id ∷ seen) rest) (after_edge a.0) r a.1.1 in
    subst (CheckedEdges nodes seen (e ∷ rest)) (ok-injective (a.0 ∷ b.0) r b.1.1) (
      one_more_edge nodes seen e a.0 rest b.0 (check_edge_ok nodes seen e a.0 a.1.0)
        (check_edges_ok nodes (e.id ∷ seen) rest b.0 b.1.0))

-- Edges in normal form that join known nodes, each identifier new, are left as they are.
pub check_edges-fixed :
    (nodes : NodeTypes) (seen : List Text) (edges : List Edge)
    → All IsNormalEdge edges
    → All (λ e. joins nodes e ≡ true) edges
    → IsApart edge_id edges
    → All (λ e. any (same_text e.id) seen ≡ false) edges
    → check_edges nodes seen edges ≡ ok edges
unfolding check_edges
check_edges-fixed nodes seen [] h j a u = refl
check_edges-fixed nodes seen (e ∷ rest) h j a u =
    rw
      (
        check_edge-fixed nodes seen e h.0 j.0 u.0,
        check_edges-fixed nodes (e.id ∷ seen) rest h.1 j.1 a.1 (still_unseen rest a.0 u.1),
      )
      refl
  where
    still_unseen :
        (l : List Edge)
        → All (λ y. same_text e.id y.id ≡ false) l
        → All (λ y. any (same_text y.id) seen ≡ false) l
        → All (λ y. any (same_text y.id) (e.id ∷ seen) ≡ false) l
    still_unseen [] p q = tt
    still_unseen (y ∷ l) p q =
        (rw (same_sym edge_id e.id y.id p.0, q.0) refl, still_unseen l p.1 q.1)
