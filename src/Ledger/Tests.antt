-- ===== src/Ledger/Tests.antt =====
-- The five methods on a new ledger, and the theorems at the ledgers that they produce.
use jamp.Prelude.{String, ◌≡◌, refl, Option, none, some, List, [], ◌∷◌, Except, ok, err, ◌≤◌, take}
use jamp.Prelude.Text.{is_sha256, is_blank}
use jamp.Canonical.{Fields, dict, normalize, canonical_bytes, replay_hash, end}
use jamp.Sample.{sample_hasher, sample_sha256, write}
use jamp.Ledger.Payload.{
  Error, causal_order_violation, EventType, genesis, prediction_commit, execution_start, parse_type,
  execution_start_of, execution_result_of, evidence_record_of, prediction_commit_payload,
  execution_start_payload, execution_result_payload, evidence_record_payload,
}
use jamp.Ledger.Event.{CausalEvent, digest, material, hash_material, build_event}
use jamp.Ledger.Validate.{CausalLedger, empty, event_count, validate, validate_type, expected}
use jamp.Ledger.Append.{
  append, record_binding, append_genesis, append_prediction_commit, append_execution_start,
  append_execution_result, append_evidence_record,
}
use jamp.Ledger.Chain.{IsChain, empty-IsChain, Appended, append-Appended, last_of}
use jamp.Ledger.Methods.{Grows, append_execution_start_lem}
use jamp.Ledger.Order.{
  Request, at_genesis, prediction, start, result, evidence, perform, serve, serve-IsChain, types,
  lifecycle, serve-lifecycle,
}

abbrev ref : String
ref = "aaaaaaaaaaaaaaaaaaaaaaaaaaaaaaaaaaaaaaaaaaaaaaaaaaaaaaaaaaaaaaaa"

abbrev first_two : List Request
first_two = at_genesis ∷ start ref "run" ∷ prediction ref ∷ at_genesis ∷ []

abbrev committed : CausalLedger
committed = serve sample_hasher first_two empty

types-committed : types committed.events ≡ genesis ∷ prediction_commit ∷ []
unfolding serve perform append_genesis append_execution_start append_prediction_commit
    append_execution_result append_evidence_record append validate build_event record_binding
    replay_hash canonical_bytes normalize write sample_sha256 parse_type is_sha256 is_blank expected
    digest material validate_type execution_start_of execution_result_of evidence_record_of
    prediction_commit_payload execution_start_payload execution_result_payload
    evidence_record_payload hash_material
types-committed = refl

-- What a digest is, where there is one.
abbrev text_of : Except Error String → String
text_of (ok d) = d
text_of (err e) = ""

abbrev event_of : Option CausalEvent → CausalEvent
event_of (some e) = e
event_of none = record {
  event_type = genesis;
  sequence_index = 0;
  parent_hash = "";
  payload_hash = "";
  event_hash = "";
}

abbrev payload_digest : Fields → String
payload_digest fs = text_of (digest sample_hasher (dict fs))

abbrev event_digest : CausalLedger → EventType → Fields → String
event_digest l t fs =
    text_of (digest sample_hasher (material t (event_count l) l.head (payload_digest fs)))

serve-lifecycle_example :
    (types committed.events ≡ take (event_count committed) lifecycle) × (event_count committed ≤ 5)
serve-lifecycle_example = serve-lifecycle sample_hasher first_two

serve-IsChain_example : IsChain sample_hasher committed
serve-IsChain_example = serve-IsChain sample_hasher first_two empty (empty-IsChain sample_hasher)

committed-IsChain : IsChain sample_hasher committed
committed-IsChain = serve-IsChain sample_hasher first_two empty (empty-IsChain sample_hasher)

abbrev head_event : CausalEvent
head_event = event_of (last_of none committed.events)

append-Appended_example :
    Appended sample_hasher committed head_event end (append sample_hasher head_event end committed)
append-Appended_example = append-Appended sample_hasher head_event end committed

abbrev start_payload : Fields
start_payload =
    execution_start_payload
      (record { prediction_commit_hash = committed.head; execution_id = "run" })

append_execution_start_lem_example :
    Grows sample_hasher committed
      (payload_digest start_payload)
      (event_digest committed execution_start start_payload)
      execution_start
      (append_execution_start sample_hasher committed.head "run" committed)
unfolding serve perform append_genesis append_execution_start append_prediction_commit
    append_execution_result append_evidence_record append validate build_event record_binding
    replay_hash canonical_bytes normalize write sample_sha256 parse_type is_sha256 is_blank expected
    digest material validate_type execution_start_of execution_result_of evidence_record_of
    prediction_commit_payload execution_start_payload execution_result_payload
    evidence_record_payload hash_material
append_execution_start_lem_example =
    append_execution_start_lem sample_hasher committed committed-IsChain head_event refl
      (payload_digest start_payload) (event_digest committed execution_start start_payload) refl
      "run" refl refl refl refl refl

-- The whole life cycle, and a sixth event that is refused.
abbrev whole : CausalLedger
whole =
    let l1 = serve sample_hasher (at_genesis ∷ prediction ref ∷ []) empty in
    let l2 = serve sample_hasher (start l1.head "run" ∷ []) l1 in
    let l3 = serve sample_hasher (result l2.head ref ∷ []) l2 in
    serve sample_hasher (evidence l3.head ref ∷ []) l3

types-whole : types whole.events ≡ lifecycle
unfolding serve perform append_genesis append_execution_start append_prediction_commit
    append_execution_result append_evidence_record append validate build_event record_binding
    replay_hash canonical_bytes normalize write sample_sha256 parse_type is_sha256 is_blank expected
    digest material validate_type execution_start_of execution_result_of evidence_record_of
    prediction_commit_payload execution_start_payload execution_result_payload
    evidence_record_payload hash_material
types-whole = refl

whole_refuses : (append_prediction_commit sample_hasher ref whole).0 ≡ err causal_order_violation
unfolding serve perform append_genesis append_execution_start append_prediction_commit
    append_execution_result append_evidence_record append validate build_event record_binding
    replay_hash canonical_bytes normalize write sample_sha256 parse_type is_sha256 is_blank expected
    digest material validate_type execution_start_of execution_result_of evidence_record_of
    prediction_commit_payload execution_start_payload execution_result_payload
    evidence_record_payload hash_material
whole_refuses = refl
