-- ===== src/Graph/Checks.antt =====
-- internal/graph/graph.go: what the checks of one node and of one edge accept, and that they accept
-- what they gave.
use mathlib.Core.List.{append-nil}
use mathlib.Core.Path.{subst}
use cirewind.Base.{
  ◌≡◌, refl, sym, ◌∙◌, ap, Bool, true, false, not, ◌&&◌, Option, none, some, is_some, List, [],
  is_nil, any, ltb, length, Text, same_text, Result, ok, err, passes, ◌>>◌, ◌>>=◌, refuse_if,
  Checked, check_each, arith, passes->>, passes-refuse_if, ok->>, ok->>=, ok-injective,
}
use cirewind.Base.Order.{text_order}
use cirewind.Base.Unique.{sorted_unique, sorted_unique-append}
use cirewind.Model.Ids.{validate_evidence_id, validate_finding_revision_id}
use cirewind.Graph.Types.{Node, Edge}
use cirewind.Graph.Rules.{node_valid}
use cirewind.Graph.Normalize.{
  bounded_text, normalize_ids, find_type, check_node, check_edge, with_ids, with_edge_ids, joins,
  NodeTypes, max_id_bytes, max_label_bytes, max_event_bytes, max_rule_bytes, max_evidence_ids,
}

passed : (c : Checked) → passes c ≡ true → c ≡ ok tt
passed (ok tt) h = refl
passed (err message) h = cc

sorted_unique-twice :
    (xs : List Text) → sorted_unique is_nil (sorted_unique is_nil xs) ≡ sorted_unique is_nil xs
sorted_unique-twice xs =
    ap (sorted_unique is_nil) (sym (append-nil (sorted_unique is_nil xs)))
    ∙ sorted_unique-append is_nil xs []
    ∙ ap (sorted_unique is_nil) (append-nil xs)

normalize_runs :
    (check : Text → Checked) (xs ys : List Text)
    → (refuse_if (ltb max_evidence_ids (length ys)) "too many IDs" >> check_each check ys) ≡ ok tt
    → sorted_unique is_nil xs ≡ ys
    → normalize_ids check xs ≡ ok ys
unfolding normalize_ids
normalize_runs check xs ys h e = rw (e, h) refl

-- What `normalizeEvidenceIDs` gave is left as it is.
normalize_fixed :
    (check : Text → Checked) (xs ys : List Text)
    → normalize_ids check xs ≡ ok ys
    → normalize_ids check ys ≡ ok ys
unfolding normalize_ids
normalize_fixed check xs ys h =
    let q =
      ok->>
        (refuse_if (ltb max_evidence_ids (length (sorted_unique is_nil xs))) "too many IDs"
          >> check_each check (sorted_unique is_nil xs))
        (ok (sorted_unique is_nil xs)) ys h in
    subst (λ zs. normalize_ids check zs ≡ ok zs) (ok-injective (sorted_unique is_nil xs) ys q.1)
      (normalize_runs check (sorted_unique is_nil xs) (sorted_unique is_nil xs) (passed _ q.0)
        (sorted_unique-twice xs))

abbrev node_head : Node → Checked
node_head n =
    bounded_text n.id max_id_bytes false
    >> refuse_if (not (node_valid n.kind)) "graph node has invalid identity or type"
    >> bounded_text n.label max_label_bytes false

pub record IsNormalNode (n : Node) : Type 0 where
  pub head : node_head n ≡ ok tt
  pub evidence : normalize_ids validate_evidence_id n.evidence_ids ≡ ok n.evidence_ids
  pub findings :
      normalize_ids validate_finding_revision_id n.focus_finding_ids ≡ ok n.focus_finding_ids

pub check_node-fixed :
    (seen : NodeTypes) (n : Node)
    → IsNormalNode n
    → find_type n.id seen ≡ none
    → check_node seen n ≡ ok n
unfolding check_node
check_node-fixed seen n h e = rw (h.head, e, h.evidence, h.findings) refl

pub record CheckedNode (seen : NodeTypes) (n m : Node) : Type 0 where
  pub normal : IsNormalNode m
  pub same_id : m.id ≡ n.id
  pub same_kind : m.kind ≡ n.kind
  pub unseen : find_type n.id seen ≡ none

none_of : {A : Type 0} (o : Option A) → is_some o ≡ false → o ≡ none
none_of none h = refl
none_of (some a) h = cc

abbrev after_evidence : Node → List Text → Result Node
after_evidence n evidence =
    normalize_ids validate_finding_revision_id n.focus_finding_ids >>= λ findings.
    ok (with_ids n evidence findings)

pub check_node_ok :
    (seen : NodeTypes) (n m : Node) → check_node seen n ≡ ok m → CheckedNode seen n m
unfolding check_node
check_node_ok seen n m h =
    let checked =
      ok->> (node_head n >> refuse_if (is_some (find_type n.id seen)) "duplicate graph node")
        (normalize_ids validate_evidence_id n.evidence_ids >>= after_evidence n) m h in
    let heads =
      passes->> (node_head n) (refuse_if (is_some (find_type n.id seen)) "duplicate graph node")
        checked.0 in
    let a =
      ok->>= (normalize_ids validate_evidence_id n.evidence_ids) (after_evidence n) m checked.1 in
    let b =
      ok->>= (normalize_ids validate_finding_revision_id n.focus_finding_ids)
        (λ findings. ok (with_ids n a.0 findings)) m a.1.1 in
    subst (CheckedNode seen n) (ok-injective (with_ids n a.0 b.0) m b.1.1) record {
      normal = record {
        head = passed (node_head n) heads.0;
        evidence = normalize_fixed validate_evidence_id n.evidence_ids a.0 a.1.0;
        findings = normalize_fixed validate_finding_revision_id n.focus_finding_ids b.0 b.1.0;
      };
      same_id = refl;
      same_kind = refl;
      unseen =
          none_of (find_type n.id seen)
            (passes-refuse_if (is_some (find_type n.id seen)) "duplicate graph node" heads.1);
    }

abbrev edge_tail : Edge → Checked
edge_tail e =
    bounded_text e.event_time max_event_bytes true
    >> bounded_text e.derivation_rule max_rule_bytes true
    >> refuse_if (e.inferred && is_nil e.derivation_rule)
        "inferred graph edge lacks a derivation rule"

pub record IsNormalEdge (e : Edge) : Type 0 where
  pub head : bounded_text e.id max_id_bytes false ≡ ok tt
  pub evidence : normalize_ids validate_evidence_id e.evidence_ids ≡ ok e.evidence_ids
  pub supported : is_nil e.evidence_ids ≡ false
  pub findings :
      normalize_ids validate_finding_revision_id e.focus_finding_ids ≡ ok e.focus_finding_ids
  pub tail : edge_tail e ≡ ok tt

pub check_edge-fixed :
    (nodes : NodeTypes) (seen : List Text) (e : Edge)
    → IsNormalEdge e
    → joins nodes e ≡ true
    → any (same_text e.id) seen ≡ false
    → check_edge nodes seen e ≡ ok e
unfolding check_edge
check_edge-fixed nodes seen e n j f =
    rw (n.head, j, f, n.evidence, n.supported, n.findings, n.tail) refl

pub record CheckedEdge (nodes : NodeTypes) (seen : List Text) (e f : Edge) : Type 0 where
  pub normal : IsNormalEdge f
  pub same_id : f.id ≡ e.id
  pub joined : joins nodes f ≡ true
  pub unseen : any (same_text e.id) seen ≡ false

abbrev after_findings : Edge → List Text → List Text → Result Edge
after_findings e evidence findings = edge_tail e >> ok (with_edge_ids e evidence findings)

abbrev after_edge_evidence : Edge → List Text → Result Edge
after_edge_evidence e evidence =
    refuse_if (is_nil evidence) "graph edge lacks supporting evidence"
    >> normalize_ids validate_finding_revision_id e.focus_finding_ids
    >>= after_findings e evidence

abbrev edge_head : NodeTypes → List Text → Edge → Checked
edge_head nodes seen e =
    bounded_text e.id max_id_bytes false
    >> refuse_if (not (joins nodes e)) "invalid graph edge"
    >> refuse_if (any (same_text e.id) seen) "duplicate graph edge"

record EdgeHead (nodes : NodeTypes) (seen : List Text) (e : Edge) : Type 0 where
  head : bounded_text e.id max_id_bytes false ≡ ok tt
  joined : joins nodes e ≡ true
  unseen : any (same_text e.id) seen ≡ false

not-false : (b : Bool) → not b ≡ false → b ≡ true
not-false b h = ground arith

edge_head_ok :
    (nodes : NodeTypes) (seen : List Text) (e : Edge)
    → passes (edge_head nodes seen e) ≡ true
    → EdgeHead nodes seen e
edge_head_ok nodes seen e h =
    let outer =
      passes->>
        (bounded_text e.id max_id_bytes false
          >> refuse_if (not (joins nodes e)) "invalid graph edge")
        (refuse_if (any (same_text e.id) seen) "duplicate graph edge") h in
    let inner =
      passes->> (bounded_text e.id max_id_bytes false)
        (refuse_if (not (joins nodes e)) "invalid graph edge") outer.0 in
    record {
      head = passed (bounded_text e.id max_id_bytes false) inner.0;
      joined =
          not-false (joins nodes e)
            (passes-refuse_if (not (joins nodes e)) "invalid graph edge" inner.1);
      unseen = passes-refuse_if (any (same_text e.id) seen) "duplicate graph edge" outer.1;
    }

pub check_edge_ok :
    (nodes : NodeTypes) (seen : List Text) (e f : Edge)
    → check_edge nodes seen e ≡ ok f
    → CheckedEdge nodes seen e f
unfolding check_edge joins
check_edge_ok nodes seen e f h =
    let checked =
      ok->> (edge_head nodes seen e)
        (normalize_ids validate_evidence_id e.evidence_ids >>= after_edge_evidence e) f h in
    let heads = edge_head_ok nodes seen e checked.0 in
    let a =
      ok->>= (normalize_ids validate_evidence_id e.evidence_ids) (after_edge_evidence e) f
        checked.1 in
    let b =
      ok->>=
        (refuse_if (is_nil a.0) "graph edge lacks supporting evidence"
          >> normalize_ids validate_finding_revision_id e.focus_finding_ids)
        (after_findings e a.0) f a.1.1 in
    let c =
      ok->> (refuse_if (is_nil a.0) "graph edge lacks supporting evidence")
        (normalize_ids validate_finding_revision_id e.focus_finding_ids) b.0 b.1.0 in
    let d = ok->> (edge_tail e) (ok (with_edge_ids e a.0 b.0)) f b.1.1 in
    subst (CheckedEdge nodes seen e) (ok-injective (with_edge_ids e a.0 b.0) f d.1) record {
      normal = record {
        head = heads.head;
        evidence = normalize_fixed validate_evidence_id e.evidence_ids a.0 a.1.0;
        supported = passes-refuse_if (is_nil a.0) "graph edge lacks supporting evidence" c.0;
        findings = normalize_fixed validate_finding_revision_id e.focus_finding_ids b.0 c.1;
        tail = passed (edge_tail e) d.0;
      };
      same_id = refl;
      joined = heads.joined;
      unseen = heads.unseen;
    }
