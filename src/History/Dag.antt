-- ===== src/History/Dag.antt =====
-- `EventDAG` of src/jamp/events/dag.py. The clock, `time.time()`, is an argument, the 64 bits of a float.
use jamp.Prelude.{ℕ, String, none, some, List, [], ◌∷◌, ok, err, ◌>>=◌, length}
use jamp.Prelude.Dict.{lookup, insert}
use jamp.Prelude.Sort.{leb_text, sort, insert_sorted}
use jamp.Canonical.{Fields, end}
use jamp.Causal.Order.{EventNode, Nodes}
use jamp.History.Ids.{event_id}
use jamp.History.Event.{
  Digester, Result, unknown_key, make_node, calculate_previous_graph_digest, empty_graph_digest,
}

pub record EventDag : Type 0 where
  pub nodes : Nodes
  pub head_ids : List String

abbrev pub genesis_id : String
genesis_id = "GENESIS"

-- `self.nodes[k]`
abbrev pub node_at : Nodes → String → Result EventNode
node_at nodes k = elim (lookup k nodes) [ none ↦ err unknown_key | some n ↦ ok n ]

-- `tuple(self.nodes[k] for k in ks)`
abbrev pub nodes_at : Nodes → List String → Result (List EventNode)
nodes_at nodes [] = ok []
nodes_at nodes (k ∷ ks) = node_at nodes k >>= λ n. nodes_at nodes ks >>= λ ns. ok (n ∷ ns)

-- A call of `append_event`.
pub record Append : Type 0 where
  pub event_type : String
  pub payload : Fields
  pub now : ℕ

module _ (d : Digester) where
  -- `EventDAG()`
  unfoldable pub new_dag : Result EventDag
  unfolding make_node
  new_dag =
      make_node d (record {
        event_id = genesis_id;
        event_type = "GENESIS";
        payload = end;
        parent_ids = [];
        state_digest = "";
        previous_graph_digest = empty_graph_digest d;
        timestamp = 0;
        digest = "";
      })
      >>= λ g. ok (record { nodes = (genesis_id, g) ∷ []; head_ids = genesis_id ∷ [] })

  unfoldable pub append_event : String → Fields → ℕ → EventDag → Result EventDag
  unfolding make_node event_id calculate_previous_graph_digest sort insert_sorted
  append_event type payload now dag =
      let id = event_id (length dag.nodes) in
      let parent_ids = sort leb_text dag.head_ids in
      nodes_at dag.nodes parent_ids >>= λ parents.
      calculate_previous_graph_digest d parents >>= λ previous.
      make_node d (record {
        event_id = id;
        event_type = type;
        payload = payload;
        parent_ids = parent_ids;
        state_digest = "";
        previous_graph_digest = previous;
        timestamp = now;
        digest = "";
      })
      >>= λ n. ok (record { nodes = insert id n dag.nodes; head_ids = id ∷ [] })

  -- Calls of `append_event`, up to the first that raises.
  unfoldable pub append_all : List Append → EventDag → Result EventDag
  unfolding append_event
  append_all [] dag = ok dag
  append_all (a ∷ rest) dag =
      append_event a.event_type a.payload a.now dag >>= λ next. append_all rest next
