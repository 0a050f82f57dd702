-- ===== src/History/Grown.antt =====
-- What `EventDAG()` and `append_event` build.
use jamp.Prelude.{
  ℕ, String, ◌≡◌, refl, true, false, Option, none, some, List, [], ◌∷◌, ◌++◌, ok, err, length, ◌==◌,
  ap, sym, subst, ◌∙◌, ok-of-bind,
}
use jamp.Prelude.Dict.{lookup, has_key, insert}
use jamp.Prelude.Sort.{sort, insert_sorted}
use jamp.Canonical.{Value, Fields, end}
use jamp.Causal.Order.{EventNode, Nodes}
use jamp.History.Ids.{event_id}
use jamp.History.Event.{
  Digester, Result, not_serializable, make_node, given_or, hash_value, event_material,
  calculate_state_digest, calculate_previous_graph_digest, compute_digest, empty_graph_digest,
}
use jamp.History.Dag.{EventDag, genesis_id, node_at, nodes_at, new_dag, append_event}

module _ (d : Digester) where
  -- A node with the digests of its own fields.
  pub record Stamped (n : EventNode) : Type 0 where
    pub state : calculate_state_digest d n.payload ≡ ok n.state_digest
    pub digest : compute_digest d n ≡ ok n.digest

  -- An entry that `append_event` adds behind the entries before it.
  pub record Fits (before : Nodes) (k : String) (n : EventNode) : Type 0 where
    pub numbered : k ≡ event_id (length before)
    pub fresh : lookup k before ≡ none
    pub keyed : k ≡ n.event_id
    pub stamped : Stamped n
    pub parent : String
    pub parent_node : EventNode
    pub parents : n.parent_ids ≡ parent ∷ []
    pub there : lookup parent before ≡ some parent_node
    pub previous : calculate_previous_graph_digest d (parent_node ∷ []) ≡ ok n.previous_graph_digest

  abbrev pub Linked : Nodes → Nodes → Type 0
  Linked before [] = Unit
  Linked before ((k, n) ∷ rest) = Fits before k n × Linked (before ++ (k, n) ∷ []) rest

  pub record Root (g : EventNode) : Type 0 where
    pub keyed : genesis_id ≡ g.event_id
    pub stamped : Stamped g
    pub parents : g.parent_ids ≡ []
    pub previous : g.previous_graph_digest ≡ empty_graph_digest d

  pub record Grown (dag : EventDag) : Type 0 where
    pub first : EventNode
    pub rest : Nodes
    pub head : String
    pub shape : dag.nodes ≡ (genesis_id, first) ∷ rest
    pub heads : dag.head_ids ≡ head ∷ []
    pub known : has_key head dag.nodes ≡ true
    pub root : Root first
    pub linked : Linked ((genesis_id, first) ∷ []) rest

  abbrev blank : String → String → Fields → List String → String → ℕ → EventNode
  blank id type payload parents previous now = record {
    event_id = id;
    event_type = type;
    payload = payload;
    parent_ids = parents;
    state_digest = "";
    previous_graph_digest = previous;
    timestamp = now;
    digest = "";
  }

  -- What the constructor makes of fields with a previous digest and no other.
  pub record Made (id : String) (parents : List String) (previous : String) (r : EventNode)
      : Type 0 where
    pub keyed : id ≡ r.event_id
    pub same_parents : r.parent_ids ≡ parents
    pub same_previous : r.previous_graph_digest ≡ previous
    pub stamped : Stamped r

  given_or-kept :
      (x y : String) (e : Result String) → (x == "") ≡ false → given_or d x e ≡ ok y → x ≡ y
  unfolding given_or
  given_or-kept x y e full h = cc (rw full at h)

  make_node-Made :
      (id type : String) (payload : Fields) (parents : List String) (previous : String) (now : ℕ)
      (r : EventNode)
      → (previous == "") ≡ false
      → make_node d (blank id type payload parents previous now) ≡ ok r
      → Made id parents previous r
  unfolding make_node given_or compute_digest event_material
  make_node-Made id type payload parents previous now r full h =
      let (s, es, h1) = ok-of-bind (calculate_state_digest d payload) _ h in
      let (p, ep, h2) = ok-of-bind (given_or d previous (ok (empty_graph_digest d))) _ h1 in
      let (g, eg, h3) = ok-of-bind _ _ h2 in
      let made : EventNode = record (blank id type payload parents p now) {
        state_digest = s;
        digest = g;
      } in
      let is_r : made ≡ r = cc h3 in
      subst (Made id parents previous) is_r (record {
        keyed = refl;
        same_parents = refl;
        same_previous = sym (given_or-kept previous p (ok (empty_graph_digest d)) full ep);
        stamped = record { state = es; digest = eg };
      })

  hash_value-full : (v : Value) (s : String) → hash_value d v ≡ ok s → (s == "") ≡ false
  unfolding hash_value
  hash_value-full v s h = cases (d.canonical_json v) h
    where
      cases :
          (o : Option String)
          → elim o [ none ↦ err not_serializable | some t ↦ ok (d.sha256_text t) ] ≡ ok s
          → (s == "") ≡ false
      cases none h = absurd (cc h)
      cases (some t) h =
          let same : d.sha256_text t ≡ s = cc h in subst (λ x. (x == "") ≡ false) same (d.full t)

  pub new_dag-Grown : (dag : EventDag) → new_dag d ≡ ok dag → Grown dag
  unfolding new_dag
  new_dag-Grown dag h =
      let (g, made, h1) =
        ok-of-bind (make_node d (blank genesis_id "GENESIS" end [] (empty_graph_digest d) 0)) _ h in
      let m =
        make_node-Made genesis_id "GENESIS" end [] (empty_graph_digest d) 0 g (d.full "[]") made in
      let start : EventDag = record { nodes = (genesis_id, g) ∷ []; head_ids = genesis_id ∷ [] } in
      let is_dag : start ≡ dag = cc h1 in
      subst Grown is_dag (record {
        first = g;
        rest = [];
        head = genesis_id;
        shape = refl;
        heads = refl;
        known = refl;
        root = record {
          keyed = m.keyed;
          stamped = m.stamped;
          parents = m.same_parents;
          previous = m.same_previous;
        };
        linked = tt;
      })

  pub one_parent :
      (nodes : Nodes) (head : String) (parent : EventNode)
      → lookup head nodes ≡ some parent
      → nodes_at nodes (head ∷ []) ≡ ok (parent ∷ [])
  one_parent nodes head parent there = rw (there, nodes_at, node_at) refl

  -- What a call of `append_event` did, on a graph with one head.
  pub record Appended (nodes : Nodes) (head : String) (dag : EventDag) : Type 0 where
    pub node : EventNode
    pub parent : EventNode
    pub there : lookup head nodes ≡ some parent
    pub previous : calculate_previous_graph_digest d (parent ∷ []) ≡ ok node.previous_graph_digest
    pub made : Made (event_id (length nodes)) (head ∷ []) node.previous_graph_digest node
    pub after : dag ≡ record {
      nodes = insert (event_id (length nodes)) node nodes;
      head_ids = event_id (length nodes) ∷ [];
    }

  pub append_event-Appended :
      (type : String) (payload : Fields) (now : ℕ) (nodes : Nodes) (head : String)
      (parent : EventNode) (dag : EventDag)
      → lookup head nodes ≡ some parent
      → append_event d type payload now (record { nodes = nodes; head_ids = head ∷ [] }) ≡ ok dag
      → Appended nodes head dag
  unfolding append_event sort insert_sorted calculate_previous_graph_digest
  append_event-Appended type payload now nodes head parent dag there h =
      let (ps, eps, h1) = ok-of-bind (nodes_at nodes (head ∷ [])) _ h in
      let only : parent ∷ [] ≡ ps = cc (sym (one_parent nodes head parent there) ∙ eps) in
      let (q, eq, h2) = ok-of-bind (calculate_previous_graph_digest d ps) _ h1 in
      let (n, made, h3) =
        ok-of-bind (make_node d (blank (event_id (length nodes)) type payload (head ∷ []) q now)) _
          h2 in
      let m =
        make_node-Made (event_id (length nodes)) type payload (head ∷ []) q now n
          (hash_value-full _ q eq) made in
      record {
        node = n;
        parent = parent;
        there = there;
        previous =
            subst
              (λ (xs : List EventNode).
                calculate_previous_graph_digest d xs ≡ ok n.previous_graph_digest)
              (sym only) (eq ∙ ap ok (sym m.same_previous));
        made = record {
          keyed = m.keyed;
          same_parents = m.same_parents;
          same_previous = refl;
          stamped = m.stamped;
        };
        after = cc h3;
      }
