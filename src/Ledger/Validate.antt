-- ===== src/Ledger/Validate.antt =====
-- The state of `CausalLedger` in src/jamp/research/causal_ledger.py, and `_validate`.
use jamp.Prelude.{
  ℕ, suc, String, Bool, false, Option, none, some, List, [], ◌∷◌, Except, err, ◌>>=◌, ◌>>◌, ◌&&◌,
  ◌==◌, refuse_if, require, nat_beq, length,
}
use jamp.Prelude.Dict.{Dict, lookup, has_key, contains}
use jamp.Canonical.{dict, Fields, Hasher}
use jamp.Ledger.Payload.{
  Error, genesis_violation, parent_missing, payload_hash_mismatch, event_hash_mismatch,
  sequence_discontinuity, head_violation, duplicate_event, causal_order_violation,
  execution_id_duplicate, prediction_commit_missing, execution_start_missing,
  execution_result_duplicate, evidence_duplicate, execution_result_missing, key_error, EventType,
  genesis, prediction_commit, execution_start, execution_result, evidence_record, type_name,
  execution_start_of, execution_result_of, evidence_record_of, has_field,
}
use jamp.Ledger.Event.{CausalEvent, zero_hash, digest, verify_event_hash}

pub record CausalLedger : Type 0 where
  pub events : Dict CausalEvent
  pub head : String
  pub execution_ids : List String
  pub execution_result_starts : List String
  pub evidence_results : List String

-- `__init__`
abbrev pub empty : CausalLedger
empty = record {
  events = [];
  head = zero_hash;
  execution_ids = [];
  execution_result_starts = [];
  evidence_results = [];
}

abbrev pub event_count : CausalLedger → ℕ
event_count l = length l.events

-- A method returns or raises, and leaves a ledger either way.
abbrev pub Action : Type 0 → Type 0
Action A = CausalLedger → Except Error A × CausalLedger

-- The type that may follow the head, the table `expected` of `_validate`.
unfoldable pub expected : EventType → Option EventType
expected genesis = some prediction_commit
expected prediction_commit = some execution_start
expected execution_start = some execution_result
expected execution_result = some evidence_record
expected evidence_record = none

abbrev pub same_type : EventType → EventType → Bool
same_type a b = type_name a == type_name b

abbrev pub is_expected : Option EventType → EventType → Bool
is_expected none t = false
is_expected (some u) t = same_type u t

-- The checks of `_validate` on an event after the first, by its type, the third argument; `last` is
-- the type of the head event.
unfoldable pub validate_type :
    CausalLedger → EventType → EventType → CausalEvent → Fields → Except Error (Unit {0})
validate_type l last genesis event payload =
    require (is_expected (expected last) genesis) causal_order_violation
validate_type l last prediction_commit event payload =
    require (is_expected (expected last) prediction_commit) causal_order_violation
validate_type l last execution_start event payload =
    require (same_type last prediction_commit) prediction_commit_missing
    >> (execution_start_of payload >>= λ s.
        require (s.prediction_commit_hash == event.parent_hash) prediction_commit_missing
        >> refuse_if (contains s.execution_id l.execution_ids) execution_id_duplicate)
validate_type l last execution_result event payload =
    require (same_type last execution_start) execution_start_missing
    >> (execution_result_of payload >>= λ s.
        require (s.execution_start_hash == event.parent_hash) execution_start_missing
        >> refuse_if (contains s.execution_start_hash l.execution_result_starts)
            execution_result_duplicate)
validate_type l last evidence_record event payload =
    require (has_field "execution_result_hash" payload && has_field "evidence_ref" payload)
      causal_order_violation
    >> require (same_type last execution_result) execution_result_missing
    >> (evidence_record_of payload >>= λ s.
        require (s.execution_result_hash == event.parent_hash) execution_result_missing
        >> refuse_if (contains s.execution_result_hash l.evidence_results) evidence_duplicate)

-- `_validate` on a ledger that is not empty, after the hashes have been checked.
unfoldable pub validate_next : CausalLedger → CausalEvent → Fields → Except Error (Unit {0})
unfolding validate_type
validate_next l event payload =
    refuse_if (same_type event.event_type genesis) genesis_violation
    >> require (has_key event.parent_hash l.events) parent_missing
    >> require (event.parent_hash == l.head) head_violation
    >> elim (lookup l.head l.events) [
      | none ↦ err key_error
      | some last ↦
          require (nat_beq event.sequence_index (suc last.sequence_index)) sequence_discontinuity
          >> refuse_if (same_type last.event_type evidence_record) causal_order_violation
          >> validate_type l last.event_type event.event_type event payload
    ]

unfoldable pub validate_first : CausalEvent → Except Error (Unit {0})
validate_first event =
    require (same_type event.event_type genesis) genesis_violation
    >> require (nat_beq event.sequence_index 0 && event.parent_hash == zero_hash) genesis_violation

-- `_validate`
unfoldable pub validate : Hasher → CausalLedger → CausalEvent → Fields → Except Error (Unit {0})
unfolding verify_event_hash digest validate_first validate_next
validate h l event payload =
    refuse_if (has_key event.event_hash l.events) duplicate_event
    >> (verify_event_hash h event >>= λ good.
        require good event_hash_mismatch
        >> (digest h (dict payload) >>= λ p.
            require (p == event.payload_hash) payload_hash_mismatch
            >> elim l.events [ [] ↦ validate_first event | _ ∷ _ ↦ validate_next l event payload ]))
