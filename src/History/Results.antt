-- ===== src/History/Results.antt =====
-- What `replay` and `replay_until` return.
use jamp.Prelude.{
  ℕ, String, ◌≡◌, refl, Bool, true, false, ◌↔◌, Option, none, some, List, [], ◌∷◌, Except, ok, err,
  ◌==◌, if◌then◌else◌, ap, sym, subst, ◌∙◌, ok-of-bind, eq_iff,
}
use jamp.Prelude.Dict.{lookup, has_key, contains, values}
use jamp.Canonical.{Value}
use jamp.Registry.{Registry, Distinct}
use jamp.Causal.Order.{EventNode, Nodes, sort_causal_order}
use jamp.Causal.Extension.{event_ids, IsExtension, sort_causal_order-IsExtension}
use jamp.Causal.Members.{order-events, events-order}
use jamp.History.Event.{Digester, Result, unknown_key}
use jamp.History.Dag.{EventDag, node_at, nodes_at}
use jamp.History.Check.{validate}
use jamp.History.Sortable.{Checked, validate-Checked, Checked-ParentsKnown, Checked-id}
use jamp.History.Replay.{
  ReplayError, inconsistent, disordered, divergence, event_not_found, Replayed, ReplayResult, live,
  after, compare_with, replay_result, until_result, replay, replay_ordered, registry_digest,
}
use jamp.History.Until.{ancestry, replay_until}
use jamp.History.Ancestry.{Precedes, ancestry-Collects}
use jamp.History.Rebuilt.{projection, replay_ordered-projection}

-- The expected registry, if there is one, has the digest of the state that was replayed.
abbrev pub Agrees : Digester → Option Registry → String → Type 0
Agrees d none s = Unit
Agrees d (some g) s = registry_digest d g.records ≡ ok s

module _ (d : Digester) (show : Value → String) (token : ℕ) where
  pub record Rebuilt (dag : EventDag) (expected : Option Registry) (r : ReplayResult) : Type 0 where
    pub order : List EventNode
    pub valid : validate d dag.nodes ≡ some (ok tt)
    pub extension : IsExtension (values dag.nodes) order
    pub ids : r.event_ids ≡ event_ids order
    pub registry : Registry
    pub is_live : r.registry ≡ live registry
    pub projected : projection show order ≡ ok registry.records
    pub distinct : Distinct registry.records
    pub hashed : registry_digest d registry.records ≡ ok r.state_digest
    pub agrees : Agrees d expected r.state_digest

  after-ok :
      {E A B : Type 0} (wrap : E → ReplayError) (m : Option (Except E A))
      (f : A → Option (Replayed B)) {b : B}
      → after wrap m f ≡ some (ok b)
      → (a : A) × (m ≡ some (ok a)) × (f a ≡ some (ok b))
  after-ok wrap none f h = cc
  after-ok wrap (some (err e)) f h = cc
  after-ok wrap (some (ok a)) f h = (a, refl, h)

  compare_with-Agrees :
      (expected : Option Registry) (s : String) (e : Option String)
      → compare_with d show token expected s ≡ ok e
      → Agrees d expected s
  compare_with-Agrees none s e h = tt
  compare_with-Agrees (some g) s e h =
      let (t, hashed, h1) = ok-of-bind (registry_digest d g.records) _ h in
      hashed ∙ ap ok (sym ((eq_iff s t).0 (equal t (s == t) h1)))
    where
      equal :
          (t : String) (b : Bool)
          → ◌≡◌ {A = Replayed (Option String)} (if b then ok (some t) else err divergence) (ok e)
          → b ≡ true
      equal t true h = refl
      equal t false h = cc

  -- When `replay` returns, the graph passes the checks and the events are those of the graph in a causal
  -- order; the registry holds the records of these events in that order, no record id twice; the digest is
  -- that of its records, and of the expected registry where one is given.
  pub replay-Rebuilt :
      (dag : EventDag) (expected : Option Registry) (r : ReplayResult)
      → replay d show token dag expected ≡ some (ok r)
      → Rebuilt dag expected r
  unfolding replay
  replay-Rebuilt dag expected r h =
      let (u, valid, h1) = after-ok inconsistent (validate d dag.nodes) _ h in
      let (order, sorted, h2) = after-ok disordered (sort_causal_order (values dag.nodes)) _ h1 in
      let (g, replayed, h3) =
        ok-of-bind (replay_ordered show token order) _
          (inner (replay_result d show token expected order) h2) in
      let (s, hashed, h4) = ok-of-bind (registry_digest d g.records) _ h3 in
      let (e, compared, h5) = ok-of-bind (compare_with d show token expected s) _ h4 in
      let (projected, distinct) = replay_ordered-projection show token order g replayed in
      let same_digest : s ≡ r.state_digest = ap (λ (x : ReplayResult). x.state_digest) (same h5) in
      record {
        order = order;
        valid = valid;
        extension = sort_causal_order-IsExtension (values dag.nodes) order sorted;
        ids = ap (λ (x : ReplayResult). x.event_ids) (sym (same h5));
        registry = g;
        is_live = ap (λ (x : ReplayResult). x.registry) (sym (same h5));
        projected = projected;
        distinct = distinct;
        hashed = hashed ∙ ap ok same_digest;
        agrees = subst (Agrees d expected) same_digest (compare_with-Agrees expected s e compared);
      }
    where
      inner : (m : Replayed ReplayResult) → some m ≡ some (ok r) → m ≡ ok r
      inner m h = cc

      same : {a : ReplayResult} → ◌≡◌ {A = Replayed ReplayResult} (ok a) (ok r) → a ≡ r
      same h = cc

  nodes_at-event_ids :
      (nodes : Nodes) (c : Checked d nodes) (ks : List String) (es : List EventNode)
      → nodes_at nodes ks ≡ ok es
      → event_ids es ≡ ks
  nodes_at-event_ids nodes c [] es h = ap (λ es. event_ids es) (sym (nothing h))
    where
      nothing : ◌≡◌ {A = Result (List EventNode)} (ok []) (ok es) → [] ≡ es
      nothing h = cc
  nodes_at-event_ids nodes c (k ∷ ks) es h =
      let (n, at, h1) = ok-of-bind (node_at nodes k) _ h in
      let (ns, more, h2) = ok-of-bind (nodes_at nodes ks) _ h1 in
      let is_id = Checked-id d nodes c k n (found (lookup k nodes) n at) in
      ap (λ es. event_ids es) (sym (whole n ns h2))
      ∙ cc (is_id, nodes_at-event_ids nodes c ks ns more)
    where
      found :
          (o : Option EventNode) (n : EventNode)
          → elim o as (λ _. Result EventNode) [ none ↦ err unknown_key | some m ↦ ok m ] ≡ ok n
          → o ≡ some n
      found none n h = cc
      found (some m) n h = cc

      whole :
          (n : EventNode) (ns : List EventNode)
          → ◌≡◌ {A = Result (List EventNode)} (ok (n ∷ ns)) (ok es)
          → n ∷ ns ≡ es
      whole n ns h = cc

  until_result-event_ids :
      (order : List EventNode) (r : ReplayResult)
      → until_result d show token order ≡ ok r
      → event_ids order ≡ r.event_ids
  until_result-event_ids order r h =
      let (g, replayed, h1) = ok-of-bind (replay_ordered show token order) _ h in
      let (s, hashed, h2) = ok-of-bind (registry_digest d g.records) _ h1 in same h2
    where
      same :
          {a : ReplayResult}
          → ◌≡◌ {A = Replayed ReplayResult} (ok a) (ok r)
          → a.event_ids ≡ r.event_ids
      same h = cc

  -- When `replay_until` returns, the events are the target and those that the target descends from through
  -- parents, and no others.
  pub replay_until-Precedes :
      (dag : EventDag) (target : String) (r : ReplayResult)
      → replay_until d show token dag target ≡ some (ok r)
      → (x : String) → (contains x r.event_ids ≡ true) ↔ Precedes dag.nodes target x
  unfolding replay_until
  replay_until-Precedes dag target r h x =
      let (there, h0) = is_there (has_key target dag.nodes) _ h in
      let (u, valid, h1) = after-ok inconsistent (validate d dag.nodes) _ h0 in
      let (seen, collected, h2) = after-ok inconsistent (ancestry dag.nodes target) _ h1 in
      let (events, listed, h3) = after-ok inconsistent (some (nodes_at dag.nodes seen)) _ h2 in
      let (order, sorted, h4) = after-ok disordered (sort_causal_order events) _ h3 in
      let c = validate-Checked d dag.nodes valid in
      let (seen2, is_seen, sound, complete) =
        ancestry-Collects dag.nodes target (Checked-ParentsKnown d dag.nodes c) there in
      let same_seen = unique seen seen2 (sym collected ∙ is_seen) in
      let extension = sort_causal_order-IsExtension events order sorted in
      let of_events = nodes_at-event_ids dag.nodes c seen events (unwrap listed) in
      let of_result = until_result-event_ids order r (inner h4) in
      (
        (λ k. sound x (
            subst (λ xs. contains x xs ≡ true) (of_events ∙ same_seen)
              (order-events events order extension x
                (subst (λ xs. contains x xs ≡ true) (sym of_result) k)))),
        (λ p.
            subst (λ xs. contains x xs ≡ true) of_result
              (events-order events order extension x
                (subst (λ xs. contains x xs ≡ true) (sym (of_events ∙ same_seen)) (complete x p)))),
      )
    where
      is_there :
          (b : Bool) (m : Option (Replayed ReplayResult))
          → (if b then m else some (err event_not_found)) ≡ some (ok r)
          → (b ≡ true) × (m ≡ some (ok r))
      is_there true m h = (refl, h)
      is_there false m h = cc

      unique :
          (a b : List String)
          → ◌≡◌ {A = Option (Result (List String))} (some (ok a)) (some (ok b))
          → a ≡ b
      unique a b h = cc

      unwrap :
          {m : Result (List EventNode)} {es : List EventNode} → some m ≡ some (ok es) → m ≡ ok es
      unwrap h = cc

      inner : {m : Replayed ReplayResult} → some m ≡ some (ok r) → m ≡ ok r
      inner h = cc
