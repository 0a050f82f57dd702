-- ===== src/History/Tests.antt =====
-- Runs of the definitions on small graphs, and the theorems about them at these.
use Prim.Native.Char.{char}
use jamp.Prelude.{
  String, ◌≡◌, refl, true, false, ◌↔◌, Option, none, some, List, [], ◌∷◌, ok, err, ◌==◌, Bool,
  Bool-cases, inl, inr, ap, eq_iff,
}
use jamp.Prelude.Dict.{DistinctKeys, contains, values}
use jamp.Prelude.Sort.{sort, insert_sorted}
use jamp.Prelude.Int.{◌+ℤ◌}
use jamp.Canonical.{Value, str, Fields, end, field, text, unsupported}
use jamp.Registry.{commit_add}
use jamp.Causal.Order.{
  EventNode, sort_causal_order, sort_nodes, start, loop, release, lower, prepare, index_events,
}
use jamp.Causal.Extension.{IsExtension}
use jamp.History.Ids.{event_id, decimal, zeros}
use jamp.History.Event.{
  Digester, Result, make_node, given_or, hash_value, event_material, calculate_state_digest,
  calculate_previous_graph_digest, compute_digest,
}
use jamp.History.Dag.{EventDag, new_dag, Append, append_all, append_event}
use jamp.History.Check.{
  Done, validate, unique_ids, genesis, parents_exist_and_precede, parent_order, acyclic, visit,
  connectivity, reach, hash_chain,
}
use jamp.History.Accepted.{append_all-validate}
use jamp.History.Reached.{validate-ends}
use jamp.History.Sorting.{validate-sort_causal_order}
use jamp.History.Replay.{
  Replayed, ReplayResult, live, replay, replay_result, replay_ordered, apply_all, apply_event,
  record_of, shown, registry_digest, from_registry, freeze, freeze_fields, freeze_items,
}
use jamp.History.Until.{replay_until, ancestry, ancestors}
use jamp.History.Ancestry.{Precedes}
use jamp.History.Results.{Rebuilt, replay-Rebuilt, replay_until-Precedes}
use jamp.History.Replays.{append_all-replay}

is_empty : String → Bool
is_empty String.[] = true
is_empty (String.◌∷◌ c s) = false

letter-full : (s : String) → (String.◌∷◌ (char b'h' tt) s == "") ≡ false
unfolding is_empty
letter-full s = elim (Bool-cases (String.◌∷◌ (char b'h' tt) s == "")) [
  | inl same ↦ absurd (clash (ap is_empty ((eq_iff (String.◌∷◌ (char b'h' tt) s) "").0 same)))
  | inr differ ↦ differ
]
  where
    clash : false ≡ true → ⊥
    clash h = cc

-- A digest of a text is the text behind a letter; only a text is told apart from other values.
abbrev digester : Digester
digester = record {
  canonical_json = λ v. elim v [ unsupported ↦ none | str s ↦ some s | other ↦ some "{}" ];
  sha256_text = λ s. String.◌∷◌ (char b'h' tt) s;
  full = letter-full;
}

abbrev show : Value → String
show v = "?"

abbrev fact : String → Fields
fact id = field (text "candidate_id") (str id) (field (text "statement") (str id) end)

abbrev calls : List Append
calls =
    (record { event_type = "FactCommitted"; payload = fact "f"; now = 1 })
    ∷ (record { event_type = "ConflictDetected"; payload = fact "c"; now = 2 })
    ∷ (record { event_type = "FactRejected"; payload = end; now = 3 })
    ∷ []

abbrev or_empty : Result EventDag → EventDag
or_empty (ok dag) = dag
or_empty (err e) = record { nodes = []; head_ids = [] }

abbrev fresh : EventDag
fresh = or_empty (new_dag digester)

abbrev grown : EventDag
grown = or_empty (append_all digester calls fresh)

fresh-made : new_dag digester ≡ ok fresh
unfolding new_dag make_node given_or hash_value event_material calculate_state_digest compute_digest
fresh-made = refl

grown-made : append_all digester calls fresh ≡ ok grown
unfolding new_dag make_node given_or hash_value event_material calculate_state_digest compute_digest
    calculate_previous_graph_digest append_all append_event event_id decimal zeros sort
    insert_sorted
grown-made = refl

append_all-validate_example : validate digester grown.nodes ≡ some (ok tt)
append_all-validate_example = append_all-validate digester calls fresh grown fresh-made grown-made

grown-DistinctKeys : DistinctKeys grown.nodes
unfolding new_dag make_node given_or hash_value event_material calculate_state_digest compute_digest
    calculate_previous_graph_digest append_all append_event event_id decimal zeros sort
    insert_sorted
grown-DistinctKeys = (refl, (refl, (refl, (refl, tt))))

validate-sort_causal_order_example :
    (order : List EventNode) × (sort_causal_order (values grown.nodes) ≡ some (ok order))
validate-sort_causal_order_example =
    validate-sort_causal_order digester grown.nodes grown-DistinctKeys append_all-validate_example

append_all-replay_example :
    (order : List EventNode) × IsExtension (values grown.nodes) order
    × (replay digester show 7 grown none ≡ some (replay_result digester show 7 none order))
append_all-replay_example =
    append_all-replay digester show 7 calls fresh grown none fresh-made grown-made

abbrev nothing : ReplayResult
nothing = record {
  registry = live (record { records = []; commit_token = 0 });
  event_ids = [];
  state_digest = "";
  verified = false;
  expected_state_digest = none;
}

abbrev or_nothing : Option (Replayed ReplayResult) → ReplayResult
or_nothing (some (ok r)) = r
or_nothing _ = nothing

abbrev replayed : ReplayResult
replayed = or_nothing (replay digester show 7 grown none)

replayed-made : replay digester show 7 grown none ≡ some (ok replayed)
unfolding new_dag make_node given_or hash_value event_material calculate_state_digest compute_digest
    calculate_previous_graph_digest append_all append_event event_id decimal zeros sort
    insert_sorted replay validate unique_ids genesis parents_exist_and_precede parent_order acyclic
    visit connectivity reach hash_chain sort_causal_order sort_nodes start loop release lower
    prepare index_events ◌+ℤ◌ replay_ordered apply_all apply_event record_of shown registry_digest
    commit_add
replayed-made = refl

replay-Rebuilt_example : Rebuilt digester show 7 grown none replayed
replay-Rebuilt_example = replay-Rebuilt digester show 7 grown none replayed replayed-made

abbrev until_second : ReplayResult
until_second = or_nothing (replay_until digester show 7 grown "EVT_0002")

until_second-made : replay_until digester show 7 grown "EVT_0002" ≡ some (ok until_second)
unfolding new_dag make_node given_or hash_value event_material calculate_state_digest compute_digest
    calculate_previous_graph_digest append_all append_event event_id decimal zeros sort
    insert_sorted validate unique_ids genesis parents_exist_and_precede parent_order acyclic visit
    connectivity reach hash_chain sort_causal_order sort_nodes start loop release lower prepare
    index_events ◌+ℤ◌ replay_ordered apply_all apply_event record_of shown registry_digest
    commit_add replay_until ancestry ancestors from_registry freeze freeze_fields freeze_items
until_second-made = refl

replay_until-Precedes_example :
    (contains "GENESIS" until_second.event_ids ≡ true) ↔ Precedes grown.nodes "EVT_0002" "GENESIS"
replay_until-Precedes_example =
    replay_until-Precedes digester show 7 grown "EVT_0002" until_second until_second-made "GENESIS"

validate-ends_example : (r : Done) × (validate digester grown.nodes ≡ some r)
validate-ends_example = validate-ends digester grown.nodes
