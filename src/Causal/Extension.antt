-- ===== src/Causal/Extension.antt =====
-- The linear extension that `sort_causal_order` returns.
use jamp.Prelude.{
  suc, ◌≤◌, String, All, Option-cases, ◌≡◌, refl, true, Option, none, some, List, [], ◌∷◌, ◌++◌,
  map, ok, err, length, ◌==◌, arith, eq_iff, inl, inr, Bool-cases, ap, ◌∙◌, sym, subst,
}
use jamp.Prelude.Int.{pos}
use jamp.Prelude.Dict.{lookup, contains}
use jamp.Causal.Order.{
  EventNode, Nodes, Ordered, indegrees, ready_at, start, loop, found, finished, prepare, sort_nodes,
  sort_causal_order, fuel_of,
}
use jamp.Causal.Count.{occurs, open_count-new, occurs-heap}
use jamp.Causal.Nodes.{Indexed, prepare-Indexed, length-prepare, by_id, prepare-by_id}
use jamp.Causal.Invariant.{Inv}
use jamp.Causal.Topological.{Topo}
use jamp.Causal.Sorted.{
  Known-contains, loop-Topo, indegrees-lookup, ready_at-start, ready_at_complete,
}

pub start-Inv : (nodes : Nodes) → Indexed nodes → Inv nodes (start nodes) [] []
unfolding start
start-Inv nodes i = record {
  degree = λ c.
      λ e. λ h. indegrees-lookup c e nodes h ∙ ap pos (omega (arith, open_count-new e.parent_ids));
  once = λ x. omega (
    arith,
    (ready_at-start nodes (indegrees nodes) nodes x i).0,
    occurs-heap x (ready_at nodes (indegrees nodes) nodes),
  );
  settled = λ x. λ h.
      ((ready_at-start nodes (indegrees nodes) nodes x i).1
        (omega (arith, h, occurs-heap x (ready_at nodes (indegrees nodes) nodes)))).1;
  known = λ x. λ h.
      Known-contains x nodes
        ((ready_at-start nodes (indegrees nodes) nodes x i).1
          (omega (arith, h, occurs-heap x (ready_at nodes (indegrees nodes) nodes)))).0;
  complete = λ x. λ e. λ h. λ z. omega (
    arith,
    ready_at_complete nodes (indegrees nodes) nodes x e h z,
    occurs-heap x (ready_at nodes (indegrees nodes) nodes),
  );
}

abbrev pub event_ids : List EventNode → List String
event_ids es = map (λ (e : EventNode). e.event_id) es

-- Every event's parents stand before it; `pre` has the ids before the list.
abbrev pub ParentsFirst : List String → List EventNode → Type 0
ParentsFirst pre [] = Unit
ParentsFirst pre (e ∷ es) =
    ((p : String) → contains p e.parent_ids ≡ true → contains p pre ≡ true)
    × ParentsFirst (pre ++ e.event_id ∷ []) es

lookup-event_id :
    (x : String) (e : EventNode) (nodes : Nodes)
    → Indexed nodes
    → lookup x nodes ≡ some e
    → e.event_id ≡ x
lookup-event_id x e [] i h = absurd (cc h)
lookup-event_id x e ((k, n) ∷ rest) i h = elim (Bool-cases (k == x)) [
  | inl same ↦
      let is_e : n ≡ e = cc (rw same at h) in
      ap (λ (q : EventNode). q.event_id) (sym is_e) ∙ sym i.0 ∙ (eq_iff k x).0 same
  | inr differ ↦ lookup-event_id x e rest i.2 (rw differ at h)
]

found-cons :
    (nodes : Nodes) (x : String) (xs : List String) (e : EventNode)
    → lookup x nodes ≡ some e
    → found nodes (x ∷ xs) ≡ e ∷ found nodes xs
found-cons nodes x xs e h = rw (h, found) refl

Topo-found :
    (nodes : Nodes) (pre xs : List String)
    → Indexed nodes
    → Topo nodes pre xs
    → ParentsFirst pre (found nodes xs) × (event_ids (found nodes xs) ≡ xs)
Topo-found nodes pre [] i t = (tt, refl)
Topo-found nodes pre (x ∷ xs) i ((e, there), parents, more) =
    let name = lookup-event_id x e nodes i there in
    let (first, same) = Topo-found nodes (pre ++ x ∷ []) xs i more in
    let head : found nodes (x ∷ xs) ≡ e ∷ found nodes xs = found-cons nodes x xs e there in
    subst (λ es. ParentsFirst pre es × (event_ids es ≡ x ∷ xs)) (sym head)
      (
        (
          parents e there,
          subst (λ y. ParentsFirst (pre ++ y ∷ []) (found nodes xs)) (sym name) first,
        ),
        cc (name, same),
      )

-- An event is the one of its id among the events.
abbrev pub Given : List EventNode → EventNode → Type 0
Given events e = lookup e.event_id (by_id events) ≡ some e

found-All :
    (nodes : Nodes) (xs : List String)
    → Indexed nodes
    → All (λ (e : EventNode). lookup e.event_id nodes ≡ some e) (found nodes xs)
found-All nodes [] i = tt
found-All nodes (x ∷ xs) i = elim (Option-cases (lookup x nodes)) [
  | inl missing ↦ subst Each (sym (rw (missing, found) refl)) (found-All nodes xs i)
  | inr (e, there) ↦ subst Each (sym (found-cons nodes x xs e there)) (
    subst (λ y. lookup y nodes ≡ some e) (sym (lookup-event_id x e nodes i there)) there,
    found-All nodes xs i,
  )
]
  where
    Each : List EventNode → Type 0
    Each = All (λ (e : EventNode). lookup e.event_id nodes ≡ some e)

-- A linear extension: parents first, no event twice, every event one of those given, and as many.
pub record IsExtension (events order : List EventNode) : Type 0 where
  pub parents_first : ParentsFirst [] order
  pub once : (x : String) → occurs x (event_ids order) ≤ 1
  pub given : All (Given events) order
  pub complete : length order ≡ length events

length-event_ids : (es : List EventNode) → length (event_ids es) ≡ length es
length-event_ids [] = refl
length-event_ids (e ∷ es) = ap suc (length-event_ids es)

loop-IsExtension :
    (nodes : Nodes) (events : List EventNode) (r : List String)
    → Indexed nodes
    → nodes ≡ by_id events
    → length nodes ≡ length events
    → length r ≡ length nodes
    → loop nodes (suc (fuel_of (start nodes))) (start nodes) [] ≡ some r
    → IsExtension events (found nodes r)
loop-IsExtension nodes events r i s n l h =
    let w = start nodes in
    let (t, o) =
      loop-Topo nodes i (suc (fuel_of w)) w.indegree w.ready [] r (start-Inv nodes i) tt h in
    let (first, same) = Topo-found nodes [] r i t in
    record {
      parents_first = first;
      once = λ x. subst (λ l. occurs x l ≤ 1) (sym same) (omega (arith, (o.1).once x));
      given =
          subst (λ ns. All (λ (e : EventNode). lookup e.event_id ns ≡ some e) (found nodes r)) s
            (found-All nodes r i);
      complete = sym (length-event_ids (found nodes r)) ∙ ap (λ xs. length xs) same ∙ l ∙ n;
    }

finished-found :
    (nodes : Nodes) (r : List String) (order : List EventNode)
    → finished nodes r ≡ ok order
    → (found nodes r ≡ order) × (length r ≡ length nodes)
finished-found nodes r order h = ground arith

nodes-IsExtension :
    (nodes : Nodes) (events order : List EventNode)
    → Indexed nodes
    → nodes ≡ by_id events
    → length nodes ≡ length events
    → sort_nodes nodes ≡ some (ok order)
    → IsExtension events order
unfolding sort_nodes
nodes-IsExtension nodes events order i s n h =
    by_loop (loop nodes (suc (fuel_of (start nodes))) (start nodes) []) refl h
  where
    by_loop :
        (o : Option (List String))
        → loop nodes (suc (fuel_of (start nodes))) (start nodes) [] ≡ o
        → (elim o as (λ _. Option (Ordered (List EventNode))) [
          | none ↦ none
          | some ordered ↦ some (finished nodes ordered)
        ])
          ≡ some (ok order)
        → IsExtension events order
    by_loop none e h = cc
    by_loop (some r) e h =
        let (same, l) = finished-found nodes r order (cc h) in
        subst (IsExtension events) same (loop-IsExtension nodes events r i s n l e)

-- An order that is returned has every event's parents before it and no event twice; each of its events is
-- the given event of its id, and there are as many as were given.
pub sort_causal_order-IsExtension :
    (events order : List EventNode)
    → sort_causal_order events ≡ some (ok order)
    → IsExtension events order
unfolding sort_causal_order
sort_causal_order-IsExtension events order h = by_prepare (prepare events) refl h
  where
    by_prepare :
        (m : Ordered Nodes)
        → prepare events ≡ m
        → (elim m as (λ _. Option (Ordered (List EventNode))) [
          | err e ↦ some (err e)
          | ok nodes ↦ sort_nodes nodes
        ])
          ≡ some (ok order)
        → IsExtension events order
    by_prepare (err x) e h = absurd (cc h)
    by_prepare (ok nodes) e h =
        nodes-IsExtension nodes events order (prepare-Indexed events nodes e)
          (prepare-by_id events nodes e) (length-prepare events nodes e) h
