-- ===== src/Causal/Order.antt =====
-- `sort_causal_order` of src/jamp/domain/causal.py, on the events of src/jamp/domain/event.py. A heap is
-- a sorted list. The loop takes fuel: the length of the heap and the number of events that wait.
use jamp.Prelude.{
  ℕ, zero, suc, ◌+◌, String, Bool, true, false, ◌&&◌, Option, none, some, List, [], ◌∷◌, ◌++◌,
  Except, ok, err, ◌>>=◌, ◌>>◌, require, refuse_if, length, all, nat_beq, ◌==◌, if◌then◌else◌,
}
use jamp.Prelude.Int.{ℤ, pos, negsuc, ◌+ℤ◌, beq_ℤ}
use jamp.Prelude.Dict.{Dict, lookup, has_key, insert}
use jamp.Prelude.Sort.{leb_text, insert_sorted, sort}
use jamp.Canonical.{Fields}

-- A timestamp is a float, its 64 bits.
pub record EventNode : Type 0 where
  pub event_id : String
  pub event_type : String
  pub payload : Fields
  pub parent_ids : List String
  pub state_digest : String
  pub previous_graph_digest : String
  pub timestamp : ℕ
  pub digest : String

pub data CausalConsistencyError : Type 0 where
  duplicate_event missing_parent cycle : CausalConsistencyError

abbrev pub Ordered : Type 0 → Type 0
Ordered A = Except CausalConsistencyError A

abbrev pub Nodes : Type 0
Nodes = Dict EventNode

-- The first loop of `_prepare`.
unfoldable pub index_events : Nodes → List EventNode → Ordered Nodes
index_events nodes [] = ok nodes
index_events nodes (e ∷ es) =
    refuse_if (has_key e.event_id nodes) duplicate_event
    >> index_events (insert e.event_id e nodes) es

-- The second loop of `_prepare`: every parent of every event is there.
abbrev pub parents_known : Nodes → Nodes → Bool
parents_known nodes [] = true
parents_known nodes ((k, e) ∷ rest) =
    all (λ p. has_key p nodes) e.parent_ids && parents_known nodes rest

unfoldable pub prepare : List EventNode → Ordered Nodes
unfolding index_events
prepare events = index_events [] events >>= λ nodes.
    require (parents_known nodes nodes) missing_parent >> ok nodes

-- `children[parent]`: an event id for every time that the event names the parent, in order.
abbrev pub repeated : String → String → List String → List String
repeated parent id [] = []
repeated parent id (p ∷ ps) =
    let rest = repeated parent id ps in if p == parent then id ∷ rest else rest

abbrev pub children : String → Nodes → List String
children parent [] = []
children parent ((k, e) ∷ rest) = repeated parent e.event_id e.parent_ids ++ children parent rest

abbrev pub indegrees : Nodes → Dict ℤ
indegrees [] = []
indegrees ((k, e) ∷ rest) = (k, pos (length e.parent_ids)) ∷ indegrees rest

abbrev pub or_zero : Option ℤ → ℤ
or_zero none = pos 0
or_zero (some n) = n

-- `indegree[k]`, which is there for every event id.
abbrev pub indegree_of : Dict ℤ → String → ℤ
indegree_of d k = or_zero (lookup k d)

abbrev digest_or_empty : Option EventNode → String
digest_or_empty none = ""
digest_or_empty (some e) = e.digest

-- `nodes[k].digest`
abbrev pub digest_of : Nodes → String → String
digest_of nodes k = digest_or_empty (lookup k nodes)

abbrev pub Entry : Type 0
Entry = String × String

-- The order of the pairs of a digest and an event id.
abbrev pub leb_entry : Entry → Entry → Bool
leb_entry (a, x) (b, y) = if a == b then leb_text x y else leb_text a b

abbrev pub ready_at : Nodes → Dict ℤ → Nodes → List Entry
ready_at nodes degrees [] = []
ready_at nodes degrees ((k, e) ∷ rest) =
    let more = ready_at nodes degrees rest in
    if beq_ℤ (indegree_of degrees k) (pos 0) then (e.digest, k) ∷ more else more

pub record Work : Type 0 where
  pub indegree : Dict ℤ
  pub ready : List Entry

unfoldable pub start : Nodes → Work
start nodes = record {
  indegree = indegrees nodes;
  ready = sort leb_entry (ready_at nodes (indegrees nodes) nodes);
}

-- One child: its indegree falls by one, and at zero it is ready.
unfoldable pub lower : Nodes → String → Work → Work
lower nodes child w =
    let n = indegree_of w.indegree child +ℤ negsuc 0 in
    record {
      indegree = insert child n w.indegree;
      ready =
          if beq_ℤ n (pos 0)
          then insert_sorted leb_entry (digest_of nodes child, child) w.ready
          else w.ready;
    }

unfoldable pub release : Nodes → List String → Work → Work
unfolding lower
release nodes [] w = w
release nodes (c ∷ cs) w = release nodes cs (lower nodes c w)

-- `ordered` has the ids here; their nodes are looked up at the end. `None` means that the fuel ran out.
unfoldable pub loop : Nodes → ℕ → Work → List String → Option (List String)
unfolding release
loop nodes zero w ordered = none
loop nodes (suc fuel) w ordered = elim w.ready [
  | [] ↦ some ordered
  | (d, id) ∷ rest ↦
      loop nodes fuel
        (release nodes (sort leb_text (children id nodes)) (record w { ready = rest }))
        (ordered ++ id ∷ [])
]

abbrev pub is_positive : ℤ → Bool
is_positive (pos zero) = false
is_positive (pos (suc n)) = true
is_positive (negsuc n) = false

-- The events that wait for a parent.
abbrev pub waiting : Dict ℤ → ℕ
waiting [] = 0
waiting ((k, n) ∷ d) = if is_positive n then suc (waiting d) else waiting d

abbrev pub fuel_of : Work → ℕ
fuel_of w = length w.ready + waiting w.indegree

abbrev pub found : Nodes → List String → List EventNode
found nodes [] = []
found nodes (k ∷ ks) = elim (lookup k nodes) [ none ↦ found nodes ks | some e ↦ e ∷ found nodes ks ]

abbrev pub finished : Nodes → List String → Ordered (List EventNode)
finished nodes ordered =
    if nat_beq (length ordered) (length nodes) then ok (found nodes ordered) else err cycle

unfoldable pub sort_nodes : Nodes → Option (Ordered (List EventNode))
unfolding start loop
sort_nodes nodes = elim (loop nodes (suc (fuel_of (start nodes))) (start nodes) []) [
  | none ↦ none
  | some ordered ↦ some (finished nodes ordered)
]

unfoldable pub sort_causal_order : List EventNode → Option (Ordered (List EventNode))
unfolding sort_nodes
sort_causal_order events = elim (prepare events) [
  | err e ↦ some (err e)
  | ok nodes ↦ sort_nodes nodes
]
