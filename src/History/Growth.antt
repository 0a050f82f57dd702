-- ===== src/History/Growth.antt =====
-- Every call of `append_event` keeps the shape of the graph.
use jamp.Prelude.{
  ℕ, suc, ◌+◌, ◌≤◌, ◌<◌, String, ◌≡◌, refl, true, false, Option, none, some, List, [], ◌∷◌, ◌++◌,
  ok, length, length-append, ◌==◌, arith, inl, inr, Bool-cases, ap, sym, subst, ◌∙◌, ok-of-bind,
  eq_iff,
}
use mathlib.Core.List.{append_assoc, append-nil}
use jamp.Prelude.Dict.{lookup, has_key, insert, insert-new, lookup-insert_self, is_some}
use jamp.Canonical.{Fields}
use jamp.Causal.Order.{EventNode, Nodes}
use jamp.History.Ids.{event_id, event_id-injective, event_id-ne-genesis}
use jamp.History.Event.{Digester}
use jamp.History.Dag.{EventDag, genesis_id, append_event, Append, append_all}
use jamp.History.Grown.{Fits, Linked, Grown, append_event-Appended}

ids-differ : (m n : ℕ) → m < n → (event_id m == event_id n) ≡ false
ids-differ m n h = elim (Bool-cases (event_id m == event_id n)) [
  | inl same ↦
      absurd (omega (arith, h, event_id-injective m n ((eq_iff (event_id m) (event_id n)).0 same)))
  | inr differ ↦ differ
]

genesis-differs : (n : ℕ) → (genesis_id == event_id n) ≡ false
genesis-differs n =
    ground
      (arith, event_id-ne-genesis n, eq_iff genesis_id (event_id n), eq_iff (event_id n) genesis_id)

module _ (d : Digester) where
  unused :
      (before rest : Nodes) (m : ℕ)
      → Linked d before rest
      → length before + length rest ≤ m
      → lookup (event_id m) rest ≡ none
  unused before [] m l h = refl
  unused before ((k, n) ∷ rest) m l h =
      let differs =
        subst (λ x. (x == event_id m) ≡ false) (sym l.0.numbered)
          (ids-differ (length before) m (omega (arith, h))) in
      rw differs (
        unused (before ++ (k, n) ∷ []) rest m l.1
          (omega (arith, h, length-append before ((k, n) ∷ []))))

  pub Linked-append :
      (before rest : Nodes) (k : String) (n : EventNode)
      → Linked d before rest
      → Fits d (before ++ rest) k n
      → Linked d before (rest ++ (k, n) ∷ [])
  Linked-append before [] k n l f = (subst (λ x. Fits d x k n) (append-nil before) f, tt)
  Linked-append before ((j, m) ∷ rest) k n l f = (
    l.0,
    Linked-append (before ++ (j, m) ∷ []) rest k n l.1
        (subst (λ x. Fits d x k n) (sym (append_assoc before ((j, m) ∷ []) rest)) f),
  )

  pub append_event-Grown :
      (type : String) (payload : Fields) (now : ℕ) (dag next : EventDag)
      → Grown d dag
      → append_event d type payload now dag ≡ ok next
      → Grown d next
  append_event-Grown type payload now dag next g h =
      let (parent, there) = present (lookup g.head dag.nodes) g.known in
      let heads : dag ≡ record { nodes = dag.nodes; head_ids = g.head ∷ [] } =
        λ i. record { nodes = dag.nodes; head_ids = g.heads i } in
      let a =
        append_event-Appended d type payload now dag.nodes g.head parent next there
          (subst (λ x. append_event d type payload now x ≡ ok next) heads h) in
      let id = event_id (length dag.nodes) in
      let new : lookup id dag.nodes ≡ none = fresh dag g in
      let grown : insert id a.node dag.nodes ≡ dag.nodes ++ (id, a.node) ∷ [] =
        insert-new id a.node dag.nodes new in
      subst (Grown d) (sym a.after) (record {
        first = g.first;
        rest = g.rest ++ (id, a.node) ∷ [];
        head = id;
        shape = grown ∙ ap (λ x. x ++ (id, a.node) ∷ []) g.shape;
        heads = refl;
        known = known_self id a.node dag.nodes;
        root = g.root;
        linked = Linked-append ((genesis_id, g.first) ∷ []) g.rest id a.node g.linked (
            subst (λ x. Fits d x id a.node) g.shape
              (record {
                numbered = refl;
                fresh = new;
                keyed = a.made.keyed;
                stamped = a.made.stamped;
                parent = g.head;
                parent_node = a.parent;
                parents = a.made.same_parents;
                there = a.there;
                previous = a.previous;
              }));
      })
    where
      present : (o : Option EventNode) → is_some o ≡ true → (e : EventNode) × (o ≡ some e)
      present none h = cc
      present (some e) h = (e, refl)

      fresh :
          (dag : EventDag) (g : Grown d dag) → lookup (event_id (length dag.nodes)) dag.nodes ≡ none
      fresh dag g =
          subst (λ x. lookup (event_id (length x)) x ≡ none) (sym g.shape)
            (rw (genesis-differs (suc (length g.rest))) (
              unused ((genesis_id, g.first) ∷ []) g.rest (suc (length g.rest)) g.linked
                (omega arith)))

      known_self :
          (k : String) (n : EventNode) (nodes : Nodes) → has_key k (insert k n nodes) ≡ true
      known_self k n nodes = rw (lookup-insert_self k n nodes) refl

  pub append_all-Grown :
      (calls : List Append) (dag last : EventDag)
      → Grown d dag
      → append_all d calls dag ≡ ok last
      → Grown d last
  unfolding append_all
  append_all-Grown [] dag last g h = subst (Grown d) (cc h) g
  append_all-Grown (a ∷ rest) dag last g h =
      let (next, first, h1) = ok-of-bind (append_event d a.event_type a.payload a.now dag) _ h in
      append_all-Grown rest next last
        (append_event-Grown a.event_type a.payload a.now dag next g first) h1
