-- ===== src/Ledger/Append.antt =====
-- The methods of `CausalLedger` in src/jamp/research/causal_ledger.py that append an event.
use jamp.Prelude.{ℕ, String, Except, ok, err, if◌then◌else◌}
use jamp.Prelude.Dict.{insert, contains, add}
use jamp.Canonical.{str, Fields, end, Hasher}
use jamp.Ledger.Payload.{
  Error, execution_id_duplicate, execution_result_duplicate, evidence_duplicate, EventType, genesis,
  prediction_commit, execution_start, execution_result, evidence_record, make_prediction_commit,
  make_execution_start, make_execution_result, make_evidence_record, prediction_commit_payload,
  execution_start_payload, execution_result_payload, evidence_record_payload, execution_start_of,
  execution_result_of, evidence_record_of,
}
use jamp.Ledger.Event.{CausalEvent, zero_hash, build_event}
use jamp.Ledger.Validate.{CausalLedger, Action, event_count, validate}

-- The bookkeeping of `append` by the event's type; the payload is read again.
unfoldable pub record_binding : EventType → Fields → Action (Unit {0})
record_binding genesis payload l = (ok tt, l)
record_binding prediction_commit payload l = (ok tt, l)
record_binding execution_start payload l = elim (execution_start_of payload) [
  | err e ↦ (err e, l)
  | ok s ↦ (ok tt, record l { execution_ids = add s.execution_id l.execution_ids })
]
record_binding execution_result payload l = elim (execution_result_of payload) [
  | err e ↦ (err e, l)
  | ok s ↦ (
    ok tt,
    record l { execution_result_starts = add s.execution_start_hash l.execution_result_starts },
  )
]
record_binding evidence_record payload l = elim (evidence_record_of payload) [
  | err e ↦ (err e, l)
  | ok s ↦ (ok tt, record l { evidence_results = add s.execution_result_hash l.evidence_results })
]

-- The last statement of `append`.
abbrev pub move_head :
    CausalEvent → Except Error (Unit {0}) × CausalLedger → Except Error CausalEvent × CausalLedger
move_head event (err e, l) = (err e, l)
move_head event (ok _, l) = (ok event, record l { head = event.event_hash })

unfoldable pub append : Hasher → CausalEvent → Fields → Action CausalEvent
append h event payload l = elim (validate h l event payload) [
  | err e ↦ (err e, l)
  | ok _ ↦ move_head event (
      record_binding event.event_type payload
        (record l { events = insert event.event_hash event l.events }))
]

-- `append(build_event(...), payload=payload)`
abbrev pub build_and_append : Hasher → EventType → ℕ → String → Fields → Action CausalEvent
build_and_append h t n parent payload l = elim (build_event h t n parent payload) [
  | err e ↦ (err e, l)
  | ok event ↦ append h event payload l
]

unfoldable pub append_genesis : Hasher → Action CausalEvent
append_genesis h = build_and_append h genesis 0 zero_hash end

unfoldable pub append_prediction_commit : Hasher → String → Action CausalEvent
unfolding make_prediction_commit prediction_commit_payload
append_prediction_commit h prediction_hash l = elim (make_prediction_commit (str prediction_hash)) [
  | err e ↦ (err e, l)
  | ok p ↦
      build_and_append h prediction_commit (event_count l) l.head (prediction_commit_payload p) l
]

unfoldable pub append_execution_start : Hasher → String → String → Action CausalEvent
unfolding make_execution_start execution_start_payload
append_execution_start h prediction_commit_hash execution_id l =
    elim (make_execution_start (str prediction_commit_hash) (str execution_id)) [
      | err e ↦ (err e, l)
      | ok p ↦
          if contains execution_id l.execution_ids
          then (err execution_id_duplicate, l)
          else build_and_append h execution_start (event_count l) l.head (execution_start_payload p)
              l
    ]

unfoldable pub append_execution_result : Hasher → String → String → Action CausalEvent
unfolding make_execution_result execution_result_payload
append_execution_result h execution_start_hash result_ref l =
    elim (make_execution_result (str execution_start_hash) (str result_ref)) [
      | err e ↦ (err e, l)
      | ok p ↦
          if contains execution_start_hash l.execution_result_starts
          then (err execution_result_duplicate, l)
          else build_and_append h execution_result (event_count l) l.head
              (execution_result_payload p) l
    ]

unfoldable pub append_evidence_record : Hasher → String → String → Action CausalEvent
unfolding make_evidence_record evidence_record_payload
append_evidence_record h execution_result_hash evidence_ref l =
    elim (make_evidence_record (str execution_result_hash) (str evidence_ref)) [
      | err e ↦ (err e, l)
      | ok p ↦
          if contains execution_result_hash l.evidence_results
          then (err evidence_duplicate, l)
          else build_and_append h evidence_record (event_count l) l.head (evidence_record_payload p)
              l
    ]
