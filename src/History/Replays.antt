-- ===== src/History/Replays.antt =====
-- The replay of a graph that `EventDAG` built.
use jamp.Prelude.{
  ℕ, String, ◌≡◌, refl, false, Option, none, some, List, [], ◌∷◌, ◌++◌, ok, ◌==◌, arith, sym, subst,
  eq_iff,
}
use mathlib.Core.List.{append_assoc, append-nil}
use jamp.Prelude.Dict.{DistinctKeys, lookup, keys, contains, values}
use jamp.Canonical.{Value}
use jamp.Registry.{Registry}
use jamp.Causal.Order.{EventNode, Nodes}
use jamp.Causal.Extension.{IsExtension, sort_causal_order-IsExtension}
use jamp.History.Event.{Digester}
use jamp.History.Dag.{EventDag, genesis_id, new_dag, Append, append_all}
use jamp.History.Grown.{Linked, Grown, new_dag-Grown}
use jamp.History.Growth.{append_all-Grown}
use jamp.History.Accepted.{append_all-validate}
use jamp.History.Sorting.{validate-sort_causal_order}
use jamp.History.Replay.{replay, replay_result}

DistinctKeys-append :
    (xs : Nodes) (k : String) (n : EventNode)
    → DistinctKeys xs
    → lookup k xs ≡ none
    → DistinctKeys (xs ++ (k, n) ∷ [])
DistinctKeys-append [] k n d h = (refl, tt)
DistinctKeys-append ((j, m) ∷ xs) k n d h =
    (other j k n xs d.0 (split j k m xs h).0, DistinctKeys-append xs k n d.1 (split j k m xs h).1)
  where
    split :
        (j k : String) (m : EventNode) (xs : Nodes)
        → lookup k ((j, m) ∷ xs) ≡ none
        → ((j == k) ≡ false) × (lookup k xs ≡ none)
    split j k m xs h = ground (arith, h)

    other :
        (j k : String) (n : EventNode) (xs : Nodes)
        → contains j (keys xs) ≡ false
        → (j == k) ≡ false
        → contains j (keys (xs ++ (k, n) ∷ [])) ≡ false
    other j k n [] h e = ground (arith, e, eq_iff j k, eq_iff k j)
    other j k n ((i, m) ∷ xs) h e = ground (arith, other j k n xs, h, e)

Linked-DistinctKeys :
    (d : Digester) (before rest : Nodes)
    → Linked d before rest
    → DistinctKeys before
    → DistinctKeys (before ++ rest)
Linked-DistinctKeys d before [] l h = subst DistinctKeys (sym (append-nil before)) h
Linked-DistinctKeys d before ((k, n) ∷ rest) l h =
    subst DistinctKeys (append_assoc before ((k, n) ∷ []) rest) (
      Linked-DistinctKeys d (before ++ (k, n) ∷ []) rest l.1
        (DistinctKeys-append before k n h l.0.fresh))

Grown-DistinctKeys : (d : Digester) (dag : EventDag) → Grown d dag → DistinctKeys dag.nodes
Grown-DistinctKeys d dag g =
    subst DistinctKeys (sym g.shape)
      (Linked-DistinctKeys d ((genesis_id, g.first) ∷ []) g.rest g.linked (refl, tt))

-- The replay of a graph that calls of `append_event` built ends, and neither the checks nor the sorting
-- raise: its outcome is that of applying the events in a causal order.
pub append_all-replay :
    (d : Digester) (show : Value → String) (token : ℕ) (calls : List Append) (fresh dag : EventDag)
    (expected : Option Registry)
    → new_dag d ≡ ok fresh
    → append_all d calls fresh ≡ ok dag
    → (order : List EventNode) × IsExtension (values dag.nodes) order
      × (replay d show token dag expected ≡ some (replay_result d show token expected order))
unfolding replay
append_all-replay d show token calls fresh dag expected made grown =
    let valid = append_all-validate d calls fresh dag made grown in
    let g = append_all-Grown d calls fresh dag (new_dag-Grown d fresh made) grown in
    let (order, sorted) =
      validate-sort_causal_order d dag.nodes (Grown-DistinctKeys d dag g) valid in
    (
      order,
      sort_causal_order-IsExtension (values dag.nodes) order sorted,
      rw (valid, replay) (rw sorted refl),
    )
