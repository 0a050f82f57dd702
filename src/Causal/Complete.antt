-- ===== src/Causal/Complete.antt =====
-- `sort_causal_order` on events whose parents are there and can be ranked below them.
use jamp.Prelude.{
  ℕ, suc, ◌<◌, String, ◌≡◌, refl, Bool, true, false, Option, none, some, List, [], ◌∷◌, All, ok,
  length, all, ◌&&◌, ◌==◌, arith, eq_iff, inl, inr, Bool-cases, ap, ◌∙◌, sym, subst, require, ◌>>◌,
  ok-of-bind,
}
use jamp.Prelude.Dict.{lookup, keys, contains, has_key, insert, lookup-insert, is_some}
use jamp.Causal.Order.{
  EventNode, Nodes, start, found, finished, prepare, parents_known, missing_parent, index_events,
  sort_nodes, sort_causal_order, fuel_of,
}
use jamp.Causal.Count.{occurs}
use jamp.Causal.Nodes.{Indexed, prepare-Indexed, prepare-index_events}
use jamp.Causal.Invariant.{Known}
use jamp.Causal.Sorted.{Done, loop-Topo, Known-contains}
use jamp.Causal.Extension.{start-Inv}
use jamp.Causal.Total.{loop-ends}
use jamp.Causal.Acyclic.{
  length-le, RankedNodes, covered, Topo-Known, Known-key, keys_once, length-keys, contains-occurs,
  occurs-contains,
}

pub sort_nodes_complete :
    (nodes : Nodes) (rank : String → ℕ)
    → Indexed nodes
    → RankedNodes rank nodes
    → (order : List EventNode) × (sort_nodes nodes ≡ some (ok order))
unfolding sort_nodes
sort_nodes_complete nodes rank i ranked =
    let w = start nodes in
    let (r, e) = loop-ends nodes (suc (fuel_of w)) w.indegree w.ready [] (omega arith) in
    let (t, final) =
      loop-Topo nodes i (suc (fuel_of w)) w.indegree w.ready [] r (start-Inv nodes i) tt e in
    let at_most =
      length-le r (keys nodes) (λ x. omega (arith, (final.1).once x))
        (λ x.
          λ h. contains-occurs x (keys nodes) (Known-key nodes x (Topo-Known nodes [] r x t h))) in
    let at_least =
      length-le (keys nodes) r (λ x. keys_once nodes x i) (λ x. λ h. reached r final x h) in
    (
      found nodes r,
      rw (e, sort_nodes)
          (ap some (finishes r (omega (arith, at_most, at_least, length-keys nodes)))),
    )
  where
    reached :
        (r : List String) → Done nodes r → (x : String) → 0 < occurs x (keys nodes) → 0 < occurs x r
    reached r final x h =
        let (e, there) = Known-contains x nodes (occurs-contains x (keys nodes) h) in
        covered nodes rank ranked r final (suc (rank x)) x e there (omega arith)

    finishes : (r : List String) → length r ≡ length nodes → finished nodes r ≡ ok (found nodes r)
    finishes r h = ground (arith, h)

-- The parents of every event are ranked below it.
abbrev pub Ranked : (String → ℕ) → List EventNode → Type 0
Ranked rank =
    All
      (λ (e : EventNode). (p : String) → contains p e.parent_ids ≡ true → rank p < rank e.event_id)

-- An entry of the nodes comes from the events.
NodesAll : (EventNode → Type 0) → Nodes → Type 0
NodesAll P nodes = (c : String) (e : EventNode) → lookup c nodes ≡ some e → P e

here_is :
    (k c : String) (n e : EventNode) (nodes : Nodes)
    → (k == c) ≡ true
    → lookup c (insert k n nodes) ≡ some e
    → n ≡ e
here_is k c n e nodes same h = ground (arith, lookup-insert k c n nodes)

elsewhere_is :
    (k c : String) (n e : EventNode) (nodes : Nodes)
    → (k == c) ≡ false
    → lookup c (insert k n nodes) ≡ some e
    → lookup c nodes ≡ some e
elsewhere_is k c n e nodes differ h = ground (arith, lookup-insert k c n nodes)

insert-NodesAll :
    (P : EventNode → Type 0) (k : String) (n : EventNode) (nodes : Nodes)
    → P n
    → NodesAll P nodes
    → NodesAll P (insert k n nodes)
unfolding NodesAll
insert-NodesAll P k n nodes p all_p c e h = elim (Bool-cases (k == c)) [
  | inl same ↦ subst P (here_is k c n e nodes same h) p
  | inr differ ↦ all_p c e (elsewhere_is k c n e nodes differ h)
]

index_events-NodesAll :
    (P : EventNode → Type 0) (nodes out : Nodes) (es : List EventNode)
    → NodesAll P nodes
    → All P es
    → index_events nodes es ≡ ok out
    → NodesAll P out
unfolding index_events
index_events-NodesAll P nodes out [] n a h = subst (NodesAll P) (cc h) n
index_events-NodesAll P nodes out (e ∷ es) n a h = elim (Bool-cases (has_key e.event_id nodes)) [
  | inl there ↦ absurd (cc (rw there at h))
  | inr new ↦
      index_events-NodesAll P (insert e.event_id e nodes) out es
        (insert-NodesAll P e.event_id e nodes a.0 n) a.1 (rw new at h)
]

has_key-Known : (nodes : Nodes) (p : String) → has_key p nodes ≡ true → Known nodes p
has_key-Known nodes p h = known (lookup p nodes) h
  where
    known : (o : Option EventNode) → is_some o ≡ true → (e : EventNode) × (o ≡ some e)
    known none h = cc
    known (some e) h = (e, refl)

all_of :
    (f : String → Bool) (ps : List String) (p : String)
    → all f ps ≡ true
    → contains p ps ≡ true
    → f p ≡ true
all_of f [] p h there = cc
all_of f (q ∷ ps) p h there = elim (Bool-cases (q == p)) [
  | inl same ↦ subst (λ x. f x ≡ true) ((eq_iff q p).0 same) (both (f q) (all f ps) h).0
  | inr differ ↦ all_of f ps p (both (f q) (all f ps) h).1 (rw differ at there)
]
  where
    both : (a b : Bool) → (a && b) ≡ true → (a ≡ true) × (b ≡ true)
    both true b h = (refl, h)
    both false b h = cc

parents_here :
    (nodes rest : Nodes) (j : String) (n : EventNode)
    → parents_known nodes ((j, n) ∷ rest) ≡ true
    → (all (λ p. has_key p nodes) n.parent_ids ≡ true) × (parents_known nodes rest ≡ true)
parents_here nodes rest j n h =
    both (all (λ p. has_key p nodes) n.parent_ids) (parents_known nodes rest) h
  where
    both : (a b : Bool) → (a && b) ≡ true → (a ≡ true) × (b ≡ true)
    both true b h = (refl, h)
    both false b h = cc

Known-parents :
    (nodes rest : Nodes) (c : String) (e : EventNode) (p : String)
    → parents_known nodes rest ≡ true
    → lookup c rest ≡ some e
    → contains p e.parent_ids ≡ true
    → Known nodes p
Known-parents nodes [] c e p k h there = absurd (cc h)
Known-parents nodes ((j, n) ∷ rest) c e p k h there =
    let (here, later) = parents_here nodes rest j n k in
    elim (Bool-cases (j == c)) [
      | inl same ↦
          let is_e : n ≡ e = cc (rw same at h) in
          has_key-Known nodes p (
            all_of (λ q. has_key q nodes) n.parent_ids p here
              (subst (λ (x : EventNode). contains p x.parent_ids ≡ true) (sym is_e) there))
      | inr differ ↦ Known-parents nodes rest c e p later (rw differ at h) there
    ]

prepare-known :
    (events : List EventNode) (nodes : Nodes)
    → prepare events ≡ ok nodes
    → parents_known nodes nodes ≡ true
unfolding prepare
prepare-known events nodes h =
    let (out, e, h1) = ok-of-bind (index_events [] events) _ h in
    checked (λ n. parents_known n n) out nodes h1
  where
    checked :
        (f : Nodes → Bool) (out nodes : Nodes)
        → (require (f out) missing_parent >> ok out) ≡ ok nodes
        → f nodes ≡ true
    checked f out nodes h = elim (Bool-cases (f out)) [
      | inl good ↦ let same : out ≡ nodes = cc (rw good at h) in subst (λ n. f n ≡ true) same good
      | inr bad ↦ absurd (cc (rw bad at h))
    ]

key_of :
    (nodes : Nodes) (c : String) (e : EventNode)
    → Indexed nodes
    → lookup c nodes ≡ some e
    → c ≡ e.event_id
key_of [] c e i h = absurd (cc h)
key_of ((j, n) ∷ rest) c e i h = elim (Bool-cases (j == c)) [
  | inl same ↦
      let is_e : n ≡ e = cc (rw same at h) in
      sym ((eq_iff j c).0 same) ∙ i.0 ∙ ap (λ (x : EventNode). x.event_id) is_e
  | inr differ ↦ key_of rest c e i.2 (rw differ at h)
]

-- When `_prepare` accepts the events and every event has parents ranked below it, `sort_causal_order`
-- returns an order: it neither runs out of fuel nor reports a cycle.
pub sort_causal_order_complete :
    (events : List EventNode) (nodes : Nodes) (rank : String → ℕ)
    → prepare events ≡ ok nodes
    → Ranked rank events
    → (order : List EventNode) × (sort_causal_order events ≡ some (ok order))
unfolding sort_causal_order NodesAll
sort_causal_order_complete events nodes rank p ranked =
    let i = prepare-Indexed events nodes p in
    let below =
      index_events-NodesAll
        (λ (e : EventNode).
          (q : String) → contains q e.parent_ids ≡ true → rank q < rank e.event_id)
        [] nodes events (λ c. λ e. λ h. absurd (cc h)) ranked
        (prepare-index_events events nodes p) in
    let (order, sorted) = sort_nodes_complete nodes rank i (λ c. λ e. λ h. λ q. λ k. (
      Known-parents nodes nodes c e q (prepare-known events nodes p) h k,
      subst (λ x. rank q < rank x) (sym (key_of nodes c e i h)) (below c e h q k),
    )) in
    (order, rw (p, sort_causal_order) sorted)
