-- ===== src/Ledger/Payload.antt =====
-- The event types, the errors and the payload classes of src/jamp/research/causal_ledger.py.
use jamp.Prelude.{
  String, Bool, true, false, Option, none, some, Except, ok, err, ◌>>=◌, ◌&&◌, ◌||◌, ◌==◌,
  if◌then◌else◌,
}
use jamp.Prelude.Text.{is_sha256, is_blank}
use jamp.Canonical.{Value, str, Fields, end, field, text, other}

-- `LedgerError` and its subclasses, and the other exceptions that a call can let through:
-- `TypeError` from `**dict(payload)`, `KeyError` from a lookup, and `CanonicalizationError`.
pub data Error : Type 0 where
  ledger_error genesis_violation parent_missing non_head_parent payload_hash_mismatch : Error
  event_hash_mismatch sequence_discontinuity head_violation duplicate_event : Error
  causal_order_violation execution_id_duplicate prediction_commit_missing : Error
  execution_start_missing execution_result_duplicate evidence_duplicate : Error
  execution_result_missing type_error key_error canonicalization : Error

pub data EventType : Type 0 where
  genesis prediction_commit execution_start execution_result evidence_record : EventType

-- `EventTypeV0.value`
abbrev pub type_name : EventType → String
type_name genesis = "GENESIS"
type_name prediction_commit = "PREDICTION_COMMIT"
type_name execution_start = "EXECUTION_START"
type_name execution_result = "EXECUTION_RESULT"
type_name evidence_record = "EVIDENCE_RECORD"

-- `EventTypeV0(value)`
unfoldable pub parse_type : String → Option EventType
parse_type s =
    if s == "GENESIS"
    then some genesis
    else if s == "PREDICTION_COMMIT"
    then some prediction_commit
    else if s == "EXECUTION_START"
    then some execution_start
    else if s == "EXECUTION_RESULT"
    then some execution_result
    else if s == "EVIDENCE_RECORD"
    then some evidence_record
    else none

pub record PredictionCommit : Type 0 where
  pub prediction_hash : String

pub record ExecutionStart : Type 0 where
  pub prediction_commit_hash : String
  pub execution_id : String

pub record ExecutionResult : Type 0 where
  pub execution_start_hash : String
  pub result_ref : String

pub record EvidenceRecord : Type 0 where
  pub execution_result_hash : String
  pub evidence_ref : String

-- `_validate_hash`
abbrev pub validate_hash : Value → Except Error String
validate_hash (str s) = if is_sha256 s then ok s else err ledger_error
validate_hash _ = err ledger_error

-- `isinstance(v, str) and v.strip()`
abbrev pub validate_id : Value → Except Error String
validate_id (str s) = if is_blank s then err ledger_error else ok s
validate_id _ = err ledger_error

-- The constructors, with `__post_init__`.
unfoldable pub make_prediction_commit : Value → Except Error PredictionCommit
make_prediction_commit p = validate_hash p >>= λ s. ok (record { prediction_hash = s })

unfoldable pub make_execution_start : Value → Value → Except Error ExecutionStart
make_execution_start p e = validate_hash p >>= λ s.
    validate_id e >>= λ i. ok (record { prediction_commit_hash = s; execution_id = i })

unfoldable pub make_execution_result : Value → Value → Except Error ExecutionResult
make_execution_result a b = validate_hash a >>= λ s.
    validate_hash b >>= λ r. ok (record { execution_start_hash = s; result_ref = r })

unfoldable pub make_evidence_record : Value → Value → Except Error EvidenceRecord
make_evidence_record a b = validate_hash a >>= λ s.
    validate_hash b >>= λ r. ok (record { execution_result_hash = s; evidence_ref = r })

-- `payload.get(name)`
abbrev pub get_field : String → Fields → Option Value
get_field k end = none
get_field k (field (text j) x fs) = if j == k then some x else get_field k fs
get_field k (field other x fs) = get_field k fs

abbrev pub has_field : String → Fields → Bool
has_field k fs = elim (get_field k fs) [ none ↦ false | some x ↦ true ]

-- No keyword but `a` and `b`.
abbrev pub only_fields : String → String → Fields → Bool
only_fields a b end = true
only_fields a b (field (text k) x fs) = (k == a || k == b) && only_fields a b fs
only_fields a b (field other x fs) = false

-- `Class(**dict(payload))` for a class of two fields: a missing, unexpected or non-text keyword is
-- a `TypeError`.
abbrev pub call_with :
    {A : Type 0} → (Value → Value → Except Error A) → String → String → Fields → Except Error A
call_with make a b fs = elim (get_field a fs) [
  | none ↦ err type_error
  | some x ↦ elim (get_field b fs) [
    | none ↦ err type_error
    | some y ↦ if only_fields a b fs then make x y else err type_error
  ]
]

unfoldable pub execution_start_of : Fields → Except Error ExecutionStart
unfolding make_execution_start
execution_start_of = call_with make_execution_start "prediction_commit_hash" "execution_id"

unfoldable pub execution_result_of : Fields → Except Error ExecutionResult
unfolding make_execution_result
execution_result_of = call_with make_execution_result "execution_start_hash" "result_ref"

unfoldable pub evidence_record_of : Fields → Except Error EvidenceRecord
unfolding make_evidence_record
evidence_record_of = call_with make_evidence_record "execution_result_hash" "evidence_ref"

-- `canonical_payload()` of each class, with its keys in the order of the code.
abbrev pub pair : String → String → String → String → Fields
pair a x b y = field (text a) (str x) (field (text b) (str y) end)

unfoldable pub prediction_commit_payload : PredictionCommit → Fields
prediction_commit_payload p = field (text "prediction_hash") (str p.prediction_hash) end

unfoldable pub execution_start_payload : ExecutionStart → Fields
execution_start_payload p =
    pair "execution_id" p.execution_id "prediction_commit_hash" p.prediction_commit_hash

unfoldable pub execution_result_payload : ExecutionResult → Fields
execution_result_payload p =
    pair "execution_start_hash" p.execution_start_hash "result_ref" p.result_ref

unfoldable pub evidence_record_payload : EvidenceRecord → Fields
evidence_record_payload p =
    pair "execution_result_hash" p.execution_result_hash "evidence_ref" p.evidence_ref
