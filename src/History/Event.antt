-- ===== src/History/Event.antt =====
-- `EventNode` of src/jamp/domain/event.py and its three digests. `json.dumps` with `canonical_json`'s
-- arguments, and SHA-256 in hexadecimal, are parameters, a record `Digester`.
use jamp.Prelude.{
  String, false, Option, none, some, List, [], ◌∷◌, Except, ok, err, ◌>>=◌, ◌==◌, ◌≡◌,
  if◌then◌else◌,
}
use jamp.Canonical.{
  Value, float, str, list, tuple, dict, Items, nil, cons, Fields, end, field, text,
}
use jamp.Causal.Order.{EventNode}

-- Every `CausalConsistencyError` by its message, `TypeError` of `json.dumps` and `KeyError` of a lookup.
pub data HistoryError : Type 0 where
  not_serializable unknown_key : HistoryError
  id_mismatch no_genesis genesis_with_parents genesis_digest : HistoryError
  duplicate_parents missing_parent parent_not_before parents_not_sorted : HistoryError
  cycle disconnected state_digest_differs previous_digest_differs digest_differs : HistoryError

abbrev pub Result : Type 0 → Type 0
Result A = Except HistoryError A

-- `canonical_json` is `none` where `json.dumps` raises; a digest in hexadecimal is not empty.
pub record Digester : Type 0 where
  pub canonical_json : Value → Option String
  pub sha256_text : String → String
  pub full : (s : String) → (sha256_text s == "") ≡ false

abbrev pub texts : List String → Items
texts [] = nil
texts (s ∷ ss) = cons (str s) (texts ss)

abbrev pub frontier_entry : EventNode → Value
frontier_entry n = dict (
    field (text "event_id") (str n.event_id) (
      field (text "state_digest") (str n.state_digest)
        (field (text "event_digest") (str n.digest) end)))

abbrev pub frontier : List EventNode → Items
frontier [] = nil
frontier (n ∷ ns) = cons (frontier_entry n) (frontier ns)

-- The dict that `compute_digest` hashes.
unfoldable pub event_material : EventNode → Value
event_material n = dict (
    field (text "event_id") (str n.event_id) (
      field (text "event_type") (str n.event_type) (
        field (text "payload") (dict n.payload) (
          field (text "parent_ids") (tuple (texts n.parent_ids)) (
            field (text "state_digest") (str n.state_digest) (
              field (text "previous_graph_digest") (str n.previous_graph_digest)
                (field (text "timestamp") (float n.timestamp) end)))))))

module _ (d : Digester) where
  unfoldable pub hash_value : Value → Result String
  hash_value v = elim (d.canonical_json v) [
    | none ↦ err not_serializable
    | some s ↦ ok (d.sha256_text s)
  ]

  unfoldable pub calculate_state_digest : Fields → Result String
  unfolding hash_value
  calculate_state_digest payload = hash_value (dict payload)

  unfoldable pub calculate_previous_graph_digest : List EventNode → Result String
  unfolding hash_value
  calculate_previous_graph_digest parents = hash_value (list (frontier parents))

  unfoldable pub compute_digest : EventNode → Result String
  unfolding hash_value event_material
  compute_digest n = hash_value (event_material n)

  abbrev pub empty_graph_digest : String
  empty_graph_digest = d.sha256_text "[]"

  -- `x if x else …` of `__post_init__`.
  unfoldable pub given_or : String → Result String → Result String
  given_or x r = if x == "" then r else ok x

  -- The constructor: `__post_init__` on the fields that are given.
  unfoldable pub make_node : EventNode → Result EventNode
  unfolding given_or calculate_state_digest compute_digest
  make_node n = given_or n.state_digest (calculate_state_digest n.payload) >>= λ s.
      given_or n.previous_graph_digest (ok empty_graph_digest) >>= λ p.
      let m : EventNode = record n { state_digest = s; previous_graph_digest = p } in
      given_or n.digest (compute_digest m) >>= λ g. ok (record m { digest = g })
