-- ===== src/History/Check.antt =====
-- `DAGConsistencyChecker` of src/jamp/domain/consistency.py. The depth-first search and the loop over the
-- reachable set take fuel, and are `none` where it runs out.
use jamp.Prelude.{
  ℕ, zero, suc, String, Bool, true, false, not, ◌&&◌, Option, none, some, List, [], ◌∷◌, ok, err,
  ◌>>=◌, ◌>>◌, require, refuse_if, length, any, nat_beq, leb, ◌==◌, if◌then◌else◌,
}
use jamp.Prelude.Dict.{lookup, keys, has_key, contains, add}
use jamp.Prelude.Sort.{leb_text, sort}
use jamp.Causal.Order.{EventNode, Nodes}
use jamp.History.Event.{
  Digester, Result, unknown_key, id_mismatch, no_genesis, genesis_with_parents, genesis_digest,
  duplicate_parents, missing_parent, parent_not_before, parents_not_sorted, cycle, disconnected,
  state_digest_differs, previous_digest_differs, digest_differs, empty_graph_digest,
  calculate_state_digest, calculate_previous_graph_digest, compute_digest,
}
use jamp.History.Dag.{genesis_id, nodes_at}

abbrev pub Done : Type 0
Done = Result (Unit {0})

abbrev pub for_each {ℓ} : {A : Type ℓ} → (A → Done) → List A → Done
for_each f [] = ok tt
for_each f (x ∷ xs) = f x >> for_each f xs

abbrev pub equal_texts : List String → List String → Bool
equal_texts [] [] = true
equal_texts [] (y ∷ ys) = false
equal_texts (x ∷ xs) [] = false
equal_texts (x ∷ xs) (y ∷ ys) = x == y && equal_texts xs ys

abbrev pub is_empty : List String → Bool
is_empty [] = true
is_empty (x ∷ xs) = false

abbrev pub check_id : String × EventNode → Done
check_id (k, n) = require (k == n.event_id) id_mismatch

unfoldable pub unique_ids : Nodes → Done
unique_ids nodes = for_each check_id nodes

unfoldable pub genesis : Digester → Nodes → Done
genesis d nodes = elim (lookup genesis_id nodes) [
  | none ↦ err no_genesis
  | some g ↦
      require (is_empty g.parent_ids) genesis_with_parents
      >> require (g.previous_graph_digest == empty_graph_digest d) genesis_digest
]

-- `positions[k]`, counted from a number.
abbrev pub position : ℕ → String → Nodes → ℕ
position i k [] = i
position i k ((j, n) ∷ rest) = if j == k then i else position (suc i) k rest

-- `len(set(ids)) == len(ids)`
abbrev pub all_differ : List String → Bool
all_differ [] = true
all_differ (x ∷ xs) = not (contains x xs) && all_differ xs

abbrev pub check_parent : Nodes → String → String → Done
check_parent nodes k p =
    require (has_key p nodes) missing_parent
    >> refuse_if (not (p == genesis_id) && leb (position 0 k nodes) (position 0 p nodes))
        parent_not_before

abbrev pub check_parents : Nodes → String × EventNode → Done
check_parents nodes (k, n) =
    require (all_differ n.parent_ids) duplicate_parents
    >> for_each (check_parent nodes k) n.parent_ids

unfoldable pub parents_exist_and_precede : Nodes → Done
parents_exist_and_precede nodes = for_each (check_parents nodes) nodes

abbrev pub check_order : String × EventNode → Done
check_order (k, n) =
    require (equal_texts n.parent_ids (sort leb_text n.parent_ids)) parents_not_sorted

unfoldable pub parent_order : Nodes → Done
unfolding sort
parent_order nodes = for_each check_order nodes

pub record Search : Type 0 where
  pub visiting : List String
  pub visited : List String

abbrev pub Searched : Type 0
Searched = Option (Result Search)

abbrev pub search_then : Searched → (Search → Searched) → Searched
search_then none f = none
search_then (some (err e)) f = some (err e)
search_then (some (ok s)) f = f s

abbrev pub remove_text : String → List String → List String
remove_text k [] = []
remove_text k (j ∷ s) = let rest = remove_text k s in if j == k then rest else j ∷ rest

abbrev pub leave : String → Search → Searched
leave id s = some (ok (record { visiting = remove_text id s.visiting; visited = add id s.visited }))

-- The nested calls, in the order of the parents.
abbrev pub visit_each : (String → Search → Searched) → List String → Search → Searched
visit_each f [] s = some (ok s)
visit_each f (p ∷ ps) s = search_then (f p s) (visit_each f ps)

-- `visit`, on fuel.
unfoldable pub visit : Nodes → ℕ → String → Search → Searched
visit nodes zero id s = none
visit nodes (suc fuel) id s =
    if contains id s.visiting
    then some (err cycle)
    else if contains id s.visited
    then some (ok s)
    else elim (lookup id nodes) [
      | none ↦ some (err unknown_key)
      | some n ↦
          search_then
            (visit_each (visit nodes fuel) n.parent_ids (record s { visiting = id ∷ s.visiting }))
            (leave id)
    ]

abbrev pub no_result : Searched → Option Done
no_result none = none
no_result (some (err e)) = some (err e)
no_result (some (ok s)) = some (ok tt)

unfoldable pub acyclic : Nodes → Option Done
unfolding visit
acyclic nodes = no_result (
    visit_each (visit nodes (suc (suc (length nodes)))) (keys nodes)
      (record { visiting = []; visited = [] }))

-- One round of the loop of `_connectivity`.
abbrev pub spread : Nodes → List String → List String
spread [] reachable = reachable
spread ((k, n) ∷ rest) reachable = spread rest (
    if not (contains k reachable) && any (λ p. contains p reachable) n.parent_ids
    then k ∷ reachable
    else reachable)

-- `while changed`: a round that adds nothing ends the loop.
unfoldable pub reach : Nodes → ℕ → List String → Option (List String)
reach nodes zero reachable = none
reach nodes (suc fuel) reachable =
    let next = spread nodes reachable in
    elim (nat_beq (length next) (length reachable)) [
      | true ↦ some next
      | false ↦ reach nodes fuel next
    ]

abbrev pub all_in : List String → List String → Bool
all_in [] s = true
all_in (k ∷ ks) s = contains k s && all_in ks s

unfoldable pub connectivity : Nodes → Option Done
unfolding reach
connectivity nodes = elim (reach nodes (suc (suc (length nodes))) (genesis_id ∷ [])) [
  | none ↦ none
  | some reachable ↦ some (require (all_in (keys nodes) reachable) disconnected)
]

-- A check that may run out of fuel, and the checks after it.
abbrev pub and_then : Option Done → Option Done → Option Done
and_then none k = none
and_then (some (err e)) k = some (err e)
and_then (some (ok u)) k = k

module _ (d : Digester) where
  abbrev pub expected_previous : Nodes → String × EventNode → Result String
  expected_previous nodes (k, n) =
      if k == genesis_id
      then ok (empty_graph_digest d)
      else nodes_at nodes n.parent_ids >>= calculate_previous_graph_digest d

  abbrev pub check_hash : Nodes → String × EventNode → Done
  check_hash nodes (k, n) = calculate_state_digest d n.payload >>= λ s.
      require (n.state_digest == s) state_digest_differs
      >> (expected_previous nodes (k, n) >>= λ p.
          require (n.previous_graph_digest == p) previous_digest_differs
          >> (compute_digest d n >>= λ g. require (n.digest == g) digest_differs))

  unfoldable pub hash_chain : Nodes → Done
  unfolding calculate_state_digest calculate_previous_graph_digest compute_digest
  hash_chain nodes = for_each (check_hash nodes) nodes

  unfoldable pub validate : Nodes → Option Done
  unfolding unique_ids genesis parents_exist_and_precede parent_order acyclic connectivity
      hash_chain
  validate nodes =
      and_then
        (some (
          unique_ids nodes
          >> genesis d nodes
          >> parents_exist_and_precede nodes
          >> parent_order nodes))
        (and_then (acyclic nodes) (and_then (connectivity nodes) (some (hash_chain nodes))))
