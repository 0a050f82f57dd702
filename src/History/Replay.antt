-- ===== src/History/Replay.antt =====
-- src/jamp/domain/replay.py: the registry that the events of a graph rebuild. The members of a `set` come in
-- the order in which they were added, the last first; `sort_causal_order` orders them anew.
use jamp.Prelude.{
  ℕ, String, Bool, true, false, Option, none, some, List, [], ◌∷◌, map, Except, ok, err, ◌>>=◌,
  ◌==◌, ◌||◌, if◌then◌else◌,
}
use Prim.Native.String
use jamp.Prelude.Dict.{values}
use jamp.Canonical.{
  Value, null, bool, int, float, str, list, tuple, dict, unsupported, Items, nil, cons, Fields, end,
  field, text,
}
use jamp.Ledger.{get_field}
use jamp.Registry.{
  RegistryRecord, Registry, RegistryError, unauthorized_registry_mutation, commit_add,
}
use jamp.Causal.Order.{EventNode, CausalConsistencyError, sort_causal_order}
use jamp.History.Event.{Digester, HistoryError, hash_value}
use jamp.History.Dag.{EventDag}
use jamp.History.Check.{validate}

pub data ReplayError : Type 0 where
  inconsistent : HistoryError → ReplayError
  disordered : CausalConsistencyError → ReplayError
  refused : RegistryError → ReplayError
  unsupported_event missing_field divergence event_not_found readonly_state : ReplayError

abbrev pub Replayed : Type 0 → Type 0
Replayed A = Except ReplayError A

-- `payload[k]`
abbrev pub value_at : String → Fields → Replayed Value
value_at k fs = elim (get_field k fs) [ none ↦ err missing_field | some v ↦ ok v ]

-- `payload.get(k, default)`
abbrev pub value_or : String → Fields → Value → Value
value_or k fs default = elim (get_field k fs) [ none ↦ default | some v ↦ v ]

-- `_commit_add`, its exception among those of the replay.
abbrev pub committed : RegistryRecord → ℕ → Registry → Replayed Registry
committed r token g =
    let (outcome, after) = commit_add r token g in
    elim outcome [ ok u ↦ ok after | err e ↦ err (refused e) ]

abbrev pub claim_fields : Value → Value → Fields → Fields
claim_fields id statement more =
    field (text "candidate_id") id (field (text "statement") statement more)

-- The text of a value in an f-string; `show` is Python's `str` on a value that is no text.
unfoldable pub shown : (Value → String) → Value → String
shown show v = elim v [ str s ↦ s | other ↦ show other ]

module _ (show : Value → String) where
  -- The record that a state-bearing event commits; `none` where the event changes nothing.
  unfoldable pub record_of : EventNode → Replayed (Option RegistryRecord)
  unfolding shown
  record_of e =
      if e.event_type == "FactCommitted"
      then (value_at "candidate_id" e.payload >>= λ id. value_at "statement" e.payload >>= λ s. ok (
          some (record {
            record_id = String.◌++◌ "FACT_" (shown show id);
            kind = "fact";
            payload = claim_fields id s (
                field (text "source_id") (value_or "source_id" e.payload (str ""))
                  (field (text "provenance") (value_or "provenance" e.payload (dict end)) end));
          })))
      else if e.event_type == "ConflictDetected"
      then (value_at "candidate_id" e.payload >>= λ id. value_at "statement" e.payload >>= λ s. ok (
          some (record {
            record_id = String.◌++◌ "CONFLICT_" (shown show id);
            kind = "conflict";
            payload = claim_fields id s end;
          })))
      else if e.event_type == "GENESIS"
          || e.event_type == "FactRejected"
          || e.event_type == "FactUnverified"
      then ok none
      else err unsupported_event

  -- `_apply_event`
  unfoldable pub apply_event : EventNode → ℕ → Registry → Replayed Registry
  unfolding record_of commit_add
  apply_event e token g = record_of e >>= λ r. elim r [ none ↦ ok g | some x ↦ committed x token g ]

  unfoldable pub apply_all : List EventNode → ℕ → Registry → Replayed Registry
  unfolding apply_event
  apply_all [] token g = ok g
  apply_all (e ∷ es) token g = apply_event e token g >>= λ next. apply_all es token next

  -- `_replay_ordered`; the first argument is the identity of the registry's token.
  unfoldable pub replay_ordered : ℕ → List EventNode → Replayed Registry
  unfolding apply_all
  replay_ordered token events =
      apply_all events token (record { records = []; commit_token = token })

abbrev pub record_values : List RegistryRecord → Items
record_values [] = nil
record_values (r ∷ rs) =
    cons
      (dict (
        field (text "record_id") (str r.record_id)
          (field (text "kind") (str r.kind) (field (text "payload") (dict r.payload) end))))
      (record_values rs)

-- `_registry_digest`
unfoldable pub registry_digest : Digester → List RegistryRecord → Replayed String
unfolding hash_value
registry_digest d records = elim (hash_value d (list (record_values records))) [
  | ok s ↦ ok s
  | err e ↦ err (inconsistent e)
]

-- `_freeze`; a mapping proxy is the dict that it shows.
unfoldable mutual
  pub freeze : Value → Value
  freeze (list xs) = tuple (freeze_items xs)
  freeze (dict fs) = dict (freeze_fields fs)
  freeze null = null
  freeze (bool b) = bool b
  freeze (int n) = int n
  freeze (float bits) = float bits
  freeze (str s) = str s
  freeze (tuple xs) = tuple xs
  freeze unsupported = unsupported

  pub freeze_items : Items → Items
  freeze_items nil = nil
  freeze_items (cons x xs) = cons (freeze x) (freeze_items xs)

  pub freeze_fields : Fields → Fields
  freeze_fields end = end
  freeze_fields (field k x fs) = field k (freeze x) (freeze_fields fs)

-- A registry, or a `ReadonlyRegistry` by its records.
pub data Snapshot : Type 0 where
  live : Registry → Snapshot
  readonly : List RegistryRecord → Snapshot

-- `ReadonlyRegistry.from_registry`
unfoldable pub from_registry : Registry → Snapshot
unfolding freeze_fields
from_registry g =
    readonly
      (map (λ (r : RegistryRecord). record r { payload = freeze_fields r.payload }) g.records)

-- `add` of the two classes: neither takes a record.
abbrev pub snapshot_add : RegistryRecord → Snapshot → Replayed (Unit {0}) × Snapshot
snapshot_add r (live g) = (err (refused unauthorized_registry_mutation), live g)
snapshot_add r (readonly rs) = (err readonly_state, readonly rs)

-- `_commit_add` of the two classes.
unfoldable pub snapshot_commit_add : RegistryRecord → ℕ → Snapshot → Replayed (Unit {0}) × Snapshot
unfolding commit_add
snapshot_commit_add r token (live g) = elim (committed r token g) [
  | ok after ↦ (ok tt, live after)
  | err e ↦ (err e, live g)
]
snapshot_commit_add r token (readonly rs) = (err readonly_state, readonly rs)

pub record ReplayResult : Type 0 where
  pub registry : Snapshot
  pub event_ids : List String
  pub state_digest : String
  pub verified : Bool
  pub expected_state_digest : Option String

-- `zero_divergence`
abbrev pub zero_divergence : ReplayResult → Bool
zero_divergence r = elim r.expected_state_digest [ none ↦ false | some s ↦ r.state_digest == s ]

abbrev pub event_ids : List EventNode → List String
event_ids es = map (λ (e : EventNode). e.event_id) es

-- What runs out of fuel, raises or goes on.
abbrev pub after {ℓ κ μ} :
    {E : Type ℓ} {A : Type κ} {B : Type μ}
    → (E → ReplayError)
    → Option (Except E A)
    → (A → Option (Except ReplayError B))
    → Option (Except ReplayError B)
after wrap none f = none
after wrap (some (err e)) f = some (err (wrap e))
after wrap (some (ok a)) f = f a

module _ (d : Digester) (show : Value → String) (token : ℕ) where
  -- The digest of the expected registry and the comparison with it.
  abbrev pub compare_with : Option Registry → String → Replayed (Option String)
  compare_with none s = ok none
  compare_with (some g) s =
      registry_digest d g.records >>= λ e. if s == e then ok (some e) else err divergence

  abbrev pub replay_result : Option Registry → List EventNode → Replayed ReplayResult
  replay_result expected ordered = replay_ordered show token ordered >>= λ g.
      registry_digest d g.records >>= λ s. compare_with expected s >>= λ e. ok (record {
        registry = live g;
        event_ids = event_ids ordered;
        state_digest = s;
        verified = true;
        expected_state_digest = e;
      })

  -- `ReplayEngine.replay`
  unfoldable pub replay : EventDag → Option Registry → Option (Replayed ReplayResult)
  unfolding validate sort_causal_order replay_ordered registry_digest
  replay dag expected = after inconsistent (validate d dag.nodes) λ u.
      after disordered (sort_causal_order (values dag.nodes))
        λ ordered. some (replay_result expected ordered)

  abbrev pub until_result : List EventNode → Replayed ReplayResult
  until_result ordered = replay_ordered show token ordered >>= λ g.
      registry_digest d g.records >>= λ s. ok (record {
        registry = from_registry g;
        event_ids = event_ids ordered;
        state_digest = s;
        verified = true;
        expected_state_digest = none;
      })
