-- ===== src/History/Sorting.antt =====
-- `sort_causal_order` on a graph that passes the checks.
use jamp.Prelude.{
  String, ◌≡◌, refl, true, false, none, some, List, [], ◌∷◌, ◌++◌, ok, ◌==◌, ◌||◌, arith, sym,
  subst, ◌∙◌, eq_iff, ap,
}
use mathlib.Core.List.{append_assoc, append-nil}
use jamp.Prelude.Dict.{DistinctKeys, lookup, keys, contains, values, insert-new}
use jamp.Causal.Order.{
  EventNode, Nodes, index_events, prepare, parents_known, sort_nodes, sort_causal_order,
}
use jamp.Causal.Nodes.{Indexed}
use jamp.Causal.Complete.{sort_nodes_complete}
use jamp.History.Event.{Digester}
use jamp.History.Check.{validate}
use jamp.History.Sortable.{
  validate-Checked, rank, Checked-RankedNodes, Checked-Indexed, Checked-parents_known,
}

index_events-values :
    (before rest : Nodes)
    → Indexed (before ++ rest)
    → index_events before (values rest) ≡ ok (before ++ rest)
unfolding index_events
index_events-values before [] i = ap ok (sym (append-nil before))
index_events-values before ((k, n) ∷ rest) i =
    let (new, is_id) = unused before k n rest i in
    let new_id = subst (λ x. lookup x before ≡ none) is_id new in
    let grown =
      insert-new n.event_id n before new_id ∙ ap (λ x. before ++ (x, n) ∷ []) (sym is_id) in
    let whole = append_assoc before ((k, n) ∷ []) rest in
    rw (new_id, grown)
      (index_events-values (before ++ (k, n) ∷ []) rest (subst Indexed (sym whole) i) ∙ ap ok whole)
  where
    keys_append :
        (x : String) (xs ys : Nodes)
        → contains x (keys (xs ++ ys)) ≡ (contains x (keys xs) || contains x (keys ys))
    keys_append x [] ys = refl
    keys_append x ((j, m) ∷ xs) ys = ground (arith, keys_append x xs ys)

    unused :
        (xs : Nodes) (k : String) (n : EventNode) (ys : Nodes)
        → Indexed (xs ++ (k, n) ∷ ys)
        → (lookup k xs ≡ none) × (k ≡ n.event_id)
    unused [] k n ys i = (refl, i.0)
    unused ((j, m) ∷ xs) k n ys i =
        let (new, is_id) = unused xs k n ys i.2 in
        let differ : (j == k) ≡ false =
          ground (arith, i.1, keys_append j xs ((k, n) ∷ ys), eq_iff j k, eq_iff k j) in
        (rw differ new, is_id)

-- A dict of events that passes `DAGConsistencyChecker.validate` can be put in causal order:
-- `sort_causal_order` on its values returns an order, with no exception.
pub validate-sort_causal_order :
    (d : Digester) (nodes : Nodes)
    → DistinctKeys nodes
    → validate d nodes ≡ some (ok tt)
    → (order : List EventNode) × (sort_causal_order (values nodes) ≡ some (ok order))
unfolding sort_causal_order prepare
validate-sort_causal_order d nodes distinct valid =
    let c = validate-Checked d nodes valid in
    let i = Checked-Indexed d nodes c distinct in
    let (order, e) = sort_nodes_complete nodes (rank d nodes c) i (Checked-RankedNodes d nodes c) in
    (order, sorted (index_events-values [] nodes i) (Checked-parents_known d nodes c) ∙ e)
  where
    sorted :
        index_events [] (values nodes) ≡ ok nodes
        → parents_known nodes nodes ≡ true
        → sort_causal_order (values nodes) ≡ sort_nodes nodes
    sorted e k = rw (e, sort_causal_order) (rw k refl)
