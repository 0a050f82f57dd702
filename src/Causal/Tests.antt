-- ===== src/Causal/Tests.antt =====
-- Vector clocks and an event graph on concrete inputs.
use jamp.Prelude.{
  String, ◌≡◌, refl, true, List, [], ◌∷◌, map, inl, inr, Bool-cases, Option, some, Except, ok, err,
  subst, false, ◌||◌, ℕ, ◌<◌, arith, eq_iff, if◌then◌else◌, ◌==◌,
}
use jamp.Prelude.Text.{nonempty}
use jamp.Prelude.Int.{◌+ℤ◌}
use jamp.Prelude.Sort.{insert_sorted, sort}
use jamp.Canonical.{end}
use jamp.Causal.Order.{
  EventNode, Nodes, Ordered, CausalConsistencyError, index_events, prepare, start, lower, release,
  loop, sort_nodes, sort_causal_order,
}
use jamp.Causal.Extension.{IsExtension, sort_causal_order-IsExtension}
use jamp.Prelude.Dict.{insert, lookup, contains}
use jamp.Causal.Clocks.{Clocks, clock_event, compute_vector_clocks, listed}
use jamp.Causal.Ancestors.{Covers, FullIds, clock_event-Relates, compute_vector_clocks-succeeds}
use jamp.Causal.Complete.{Ranked, sort_causal_order_complete}
use jamp.Causal.Total.{sort_causal_order-ends}
use jamp.Causal.Clock.{before, VectorClock, concurrent, relation}
use jamp.Causal.Relation.{Relates, relation-Relates}
use jamp.Causal.Laws.{Valid}

abbrev left : VectorClock
left = record { components = ("a", 2) ∷ ("b", 1) ∷ [] }

abbrev right : VectorClock
right = record { components = ("b", 3) ∷ ("c", 1) ∷ [] }

are_concurrent : relation left right ≡ concurrent
unfolding relation
are_concurrent = refl

relation-Relates_example : Relates left right (relation left right)
relation-Relates_example = relation-Relates left right

left-Valid : Valid left
unfolding nonempty
left-Valid = record { full = refl; distinct = refl }

right-Valid : Valid right
unfolding nonempty
right-Valid = record { full = refl; distinct = refl }

key-nonempty : nonempty "c" ≡ true
unfolding nonempty
key-nonempty = refl

abbrev node : String → List String → String → EventNode
node id parents digest = record {
  event_id = id;
  event_type = "STEP";
  payload = end;
  parent_ids = parents;
  state_digest = "";
  previous_graph_digest = "";
  timestamp = 0;
  digest = digest;
}

abbrev diamond : List EventNode
diamond =
    node "d" ("b" ∷ "c" ∷ []) "0"
    ∷ node "b" ("a" ∷ []) "2"
    ∷ node "c" ("a" ∷ []) "1"
    ∷ node "a" [] "3"
    ∷ []

abbrev ids : Option (Except CausalConsistencyError (List EventNode)) → List String
ids (some (ok events)) = map (λ (e : EventNode). e.event_id) events
ids _ = []

diamond-sorted : ids (sort_causal_order diamond) ≡ "a" ∷ "c" ∷ "b" ∷ "d" ∷ []
unfolding sort_causal_order sort_nodes start loop release lower prepare index_events sort
    insert_sorted ◌+ℤ◌
diamond-sorted = refl

sort_causal_order-ends_example :
    (r : Except CausalConsistencyError (List EventNode)) × (sort_causal_order diamond ≡ some r)
sort_causal_order-ends_example = sort_causal_order-ends diamond

abbrev or_none : Option (Except CausalConsistencyError (List EventNode)) → List EventNode
or_none (some (ok events)) = events
or_none _ = []

abbrev sorted_diamond : List EventNode
sorted_diamond = or_none (sort_causal_order diamond)

is_sorted : sort_causal_order diamond ≡ some (ok sorted_diamond)
unfolding sort_causal_order sort_nodes start loop release lower prepare index_events sort
    insert_sorted ◌+ℤ◌
is_sorted = refl

sort_causal_order-IsExtension_example : IsExtension diamond sorted_diamond
sort_causal_order-IsExtension_example =
    sort_causal_order-IsExtension diamond sorted_diamond is_sorted

sorted_diamond-full : FullIds sorted_diamond
unfolding nonempty sort_causal_order sort_nodes start loop release lower prepare index_events sort
    insert_sorted ◌+ℤ◌
sorted_diamond-full = (refl, (refl, (refl, (refl, tt))))

compute_vector_clocks-succeeds_example :
    (clocks : Clocks) × (compute_vector_clocks diamond ≡ some (ok (listed clocks)))
compute_vector_clocks-succeeds_example =
    compute_vector_clocks-succeeds diamond sorted_diamond is_sorted sorted_diamond-full

abbrev root_clock : VectorClock
root_clock = record { components = ("a", 1) ∷ [] }

root_clock-Valid : Valid root_clock
unfolding nonempty
root_clock-Valid = record { full = refl; distinct = refl }

abbrev root_known : Clocks
root_known = ("a", root_clock) ∷ []

abbrev second : EventNode
second = node "b" ("a" ∷ []) "2"

second-Covers : Covers root_known second.parent_ids
second-Covers p h = elim (Bool-cases ("a" == p)) [
  | inl same ↦ (root_clock, rw same refl, root_clock-Valid)
  | inr differ ↦ absurd (cc (rw differ at h))
]

second-full : nonempty "b" ≡ true
unfolding nonempty
second-full = refl

clock_event-Relates_example :
    (c : VectorClock) × (clock_event root_known second ≡ ok (insert "b" c root_known))
    × Valid c
    × ((p : String) (d : VectorClock)
        → contains p second.parent_ids ≡ true
        → lookup p root_known ≡ some d
        → Relates d c before)
clock_event-Relates_example = clock_event-Relates root_known second second-Covers second-full

-- The events of the diamond from the top down.
height : String → ℕ
height k = if k == "a" then 0 else if k == "d" then 2 else 1

diamond-Ranked : Ranked height diamond
unfolding height
diamond-Ranked = (
  (λ p. λ h. low p h),
  (
    (λ p. λ h. bottom p (ground (arith, h))),
    ((λ p. λ h. bottom p (ground (arith, h))), ((λ p. λ h. absurd (none_of h)), tt)),
  ),
)
  where
    none_of : false ≡ true → ⊥
    none_of h = cc

    bottom : (p : String) → ("a" == p) ≡ true → height p < 1
    bottom p h = subst (λ q. height q < 1) ((eq_iff "a" p).0 h) (omega arith)

    low : (p : String) → ("b" == p || ("c" == p || false)) ≡ true → height p < 2
    low p h = elim (Bool-cases ("b" == p)) [
      | inl is_b ↦ subst (λ q. height q < 2) ((eq_iff "b" p).0 is_b) (omega arith)
      | inr other ↦
          subst (λ q. height q < 2) ((eq_iff "c" p).0 (ground (arith, other, h))) (omega arith)
    ]

abbrev or_no_nodes : Ordered Nodes → Nodes
or_no_nodes (ok nodes) = nodes
or_no_nodes (err e) = []

diamond-prepared : prepare diamond ≡ ok (or_no_nodes (prepare diamond))
unfolding prepare index_events
diamond-prepared = refl

sort_causal_order_complete_example :
    (order : List EventNode) × (sort_causal_order diamond ≡ some (ok order))
sort_causal_order_complete_example =
    sort_causal_order_complete diamond (or_no_nodes (prepare diamond)) height diamond-prepared
      diamond-Ranked
