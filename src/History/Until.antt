-- ===== src/History/Until.antt =====
-- `ReplayEngine.replay_until` of src/jamp/domain/replay.py: the events before a target, and their replay.
-- The loop over `pending` takes fuel.
use jamp.Prelude.{
  ℕ, zero, suc, ◌+◌, String, true, false, Option, none, some, List, [], ◌∷◌, ok, err, length,
  if◌then◌else◌,
}
use jamp.Prelude.Dict.{lookup, has_key, contains}
use jamp.Canonical.{Value}
use jamp.Causal.Order.{Nodes, sort_causal_order}
use jamp.History.Event.{Digester, Result, unknown_key}
use jamp.History.Dag.{EventDag, nodes_at}
use jamp.History.Check.{validate}
use jamp.History.Replay.{
  inconsistent, disordered, event_not_found, Replayed, ReplayResult, after, until_result,
  replay_ordered, registry_digest, from_registry,
}

-- `pending.extend(ids)`; the last entry of `pending` is the first here.
abbrev pub extend : List String → List String → List String
extend [] pending = pending
extend (p ∷ ps) pending = extend ps (p ∷ pending)

-- The loop over `pending`; it returns the set `ancestry`.
unfoldable pub ancestors : Nodes → ℕ → List String → List String → Option (Result (List String))
ancestors nodes zero pending seen = none
ancestors nodes (suc fuel) [] seen = some (ok seen)
ancestors nodes (suc fuel) (id ∷ pending) seen = elim (contains id seen) [
  | true ↦ ancestors nodes fuel pending seen
  | false ↦ elim (lookup id nodes) [
    | none ↦ some (err unknown_key)
    | some n ↦ ancestors nodes fuel (extend n.parent_ids pending) (id ∷ seen)
  ]
]

-- The number of parents that all nodes name.
abbrev pub edges : Nodes → ℕ
edges [] = 0
edges ((k, n) ∷ rest) = length n.parent_ids + edges rest

unfoldable pub ancestry : Nodes → String → Option (Result (List String))
unfolding ancestors
ancestry nodes target = ancestors nodes (suc (suc (edges nodes))) (target ∷ []) []

module _ (d : Digester) (show : Value → String) (token : ℕ) where
  -- The events of the ids in `ancestry`, in causal order.
  abbrev pub replay_some : Nodes → List String → Option (Replayed ReplayResult)
  replay_some nodes seen = after inconsistent (some (nodes_at nodes seen)) λ events.
      after disordered (sort_causal_order events)
        λ ordered. some (until_result d show token ordered)

  unfoldable pub replay_until : EventDag → String → Option (Replayed ReplayResult)
  unfolding validate sort_causal_order replay_ordered registry_digest from_registry ancestry
  replay_until dag target =
      if has_key target dag.nodes
      then (after inconsistent (validate d dag.nodes)
          λ u. after inconsistent (ancestry dag.nodes target) λ seen. replay_some dag.nodes seen)
      else some (err event_not_found)
