-- ===== src/Ledger/Event.antt =====
-- `CausalEventV0` of src/jamp/research/causal_ledger.py: its constructor and its hash.
use jamp.Prelude.{ℕ, String, Bool, none, some, Except, ok, err, ◌>>=◌, ◌>>◌, ◌==◌, require}
use jamp.Prelude.Int.{ℤ, pos, negsuc}
use jamp.Prelude.Text.{is_sha256}
use jamp.Canonical.{Value, int, str, dict, Fields, end, field, text, Hasher, replay_hash}
use jamp.Ledger.Payload.{Error, ledger_error, canonicalization, EventType, type_name, parse_type}

-- An event after `__post_init__`; `event_version` is always "0" then.
pub record CausalEvent : Type 0 where
  pub event_type : EventType
  pub sequence_index : ℕ
  pub parent_hash : String
  pub payload_hash : String
  pub event_hash : String

abbrev pub zero_hash : String
zero_hash = "0000000000000000000000000000000000000000000000000000000000000000"

abbrev check_hash : String → Except Error (Unit {0})
check_hash s = require (is_sha256 s) ledger_error

-- The constructor of `CausalEventV0` on its six arguments.
unfoldable pub make_event :
    String → String → ℤ → String → String → String → Except Error CausalEvent
make_event type version (negsuc n) parent payload hash = err ledger_error
make_event type version (pos n) parent payload hash = elim (parse_type type) [
  | none ↦ err ledger_error
  | some t ↦
      require (version == "0") ledger_error
      >> check_hash parent
      >> check_hash payload
      >> check_hash hash
      >> ok (record {
        event_type = t;
        sequence_index = n;
        parent_hash = parent;
        payload_hash = payload;
        event_hash = hash;
      })
]

-- The dict that is hashed into `event_hash`.
unfoldable pub material : EventType → ℕ → String → String → Value
material t n parent payload = dict (
    field (text "event_type") (str (type_name t)) (
      field (text "event_version") (str "0") (
        field (text "parent_hash") (str parent) (
          field (text "payload_hash") (str payload)
            (field (text "sequence_index") (int (pos n)) end)))))

unfoldable pub hash_material : CausalEvent → Value
unfolding material
hash_material e = material e.event_type e.sequence_index e.parent_hash e.payload_hash

module _ (h : Hasher) where
  -- `replay_hash`, its error among those of the ledger.
  unfoldable pub digest : Value → Except Error String
  digest v = elim (replay_hash h v) [ ok d ↦ ok d | err e ↦ err canonicalization ]

  unfoldable pub verify_event_hash : CausalEvent → Except Error Bool
  unfolding digest hash_material
  verify_event_hash e = digest (hash_material e) >>= λ d. ok (d == e.event_hash)

  unfoldable pub build_event : EventType → ℕ → String → Fields → Except Error CausalEvent
  unfolding digest material make_event
  build_event t n parent payload = digest (dict payload) >>= λ p.
      digest (material t n parent p) >>= λ d. make_event (type_name t) "0" (pos n) parent p d
