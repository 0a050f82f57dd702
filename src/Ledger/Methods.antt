-- ===== src/Ledger/Methods.antt =====
-- The methods of the causal ledger on a ledger whose head has the type before their own.
use jamp.Prelude.{String, ◌≡◌, true, false, some, none, ok, Except}
use text.Mathlib.TextPositions.{eq_refl}
use jamp.Prelude.Text.{is_sha256, is_blank}
use jamp.Prelude.Dict.{lookup, contains}
use jamp.Canonical.{str, dict, Hasher}
use jamp.Ledger.Payload.{
  Error, EventType, genesis, prediction_commit, execution_start, execution_result, evidence_record,
  make_prediction_commit, make_execution_start, make_execution_result, make_evidence_record,
  prediction_commit_payload, execution_start_payload, execution_result_payload,
  evidence_record_payload, execution_start_of, execution_result_of, evidence_record_of,
}
use jamp.Ledger.Event.{CausalEvent, digest, material}
use jamp.Ledger.Validate.{CausalLedger, expected, event_count, validate_type}
use jamp.Ledger.Append.{
  append_prediction_commit, append_execution_start, append_execution_result, append_evidence_record,
}
use jamp.Ledger.Chain.{last_of, IsChain, Extends}
use jamp.Ledger.Progress.{head-is_sha256, event_at, append_here}

make_prediction_commit-ok :
    (q : String)
    → is_sha256 q ≡ true
    → make_prediction_commit (str q) ≡ ok (record { prediction_hash = q })
unfolding make_prediction_commit
make_prediction_commit-ok q e = rw e

make_execution_start-ok :
    (q id : String)
    → is_sha256 q ≡ true
    → is_blank id ≡ false
    → make_execution_start (str q) (str id)
      ≡ ok (record { prediction_commit_hash = q; execution_id = id })
unfolding make_execution_start
make_execution_start-ok q id e b = rw (e, b)

make_execution_result-ok :
    (q ref : String)
    → is_sha256 q ≡ true
    → is_sha256 ref ≡ true
    → make_execution_result (str q) (str ref)
      ≡ ok (record { execution_start_hash = q; result_ref = ref })
unfolding make_execution_result
make_execution_result-ok q ref e b = rw (e, b)

make_evidence_record-ok :
    (q ref : String)
    → is_sha256 q ≡ true
    → is_sha256 ref ≡ true
    → make_evidence_record (str q) (str ref)
      ≡ ok (record { execution_result_hash = q; evidence_ref = ref })
unfolding make_evidence_record
make_evidence_record-ok q ref e b = rw (e, b)

-- The call returns the event of type `t`, sealed by the digests `p` and `d`, and has appended it.
abbrev pub Grows :
    Hasher
    → CausalLedger
    → String
    → String
    → EventType
    → Except Error CausalEvent × CausalLedger
    → Type 0
Grows h l p d t r = (r.0 ≡ ok (event_at l t p d)) × Extends h l (event_at l t p d) r.1

module _ (h : Hasher) (l : CausalLedger) (c : IsChain h l) (last : CausalEvent)
    (at_end : last_of none l.events ≡ some last) (p d : String)
    (fresh : lookup d l.events ≡ none) where
  -- On a ledger whose head is GENESIS, a well-formed prediction hash is committed.
  pub append_prediction_commit_lem :
      (q : String)
      → last.event_type ≡ genesis
      → is_sha256 q ≡ true
      → digest h (dict (prediction_commit_payload (record { prediction_hash = q }))) ≡ ok p
      → digest h (material prediction_commit (event_count l) l.head p) ≡ ok d
      → Grows h l p d prediction_commit (append_prediction_commit h q l)
  unfolding append_prediction_commit make_prediction_commit validate_type expected
  append_prediction_commit_lem q t valid paid sealed =
      rw (make_prediction_commit-ok q valid, append_prediction_commit)
        (append_here h l c last at_end prediction_commit
          (prediction_commit_payload (record { prediction_hash = q })) p d paid sealed fresh (rw t)
          (rw t))

  -- On a well-formed ledger whose head is a prediction commit, an execution that names it by its hash, and whose id is
  -- not blank and not in use, is started, provided that the payload and the event can be hashed and that the table
  -- has no event with the new hash: the call returns the event and has appended it.
  pub append_execution_start_lem :
      (id : String)
      → last.event_type ≡ prediction_commit
      → is_blank id ≡ false
      → contains id l.execution_ids ≡ false
      → digest h (
          dict (
            execution_start_payload
              (record { prediction_commit_hash = l.head; execution_id = id })))
        ≡ ok p
      → digest h (material execution_start (event_count l) l.head p) ≡ ok d
      → Grows h l p d execution_start (append_execution_start h l.head id l)
  unfolding append_execution_start make_execution_start execution_start_payload execution_start_of
      validate_type expected
  append_execution_start_lem id t solid new paid sealed =
      rw
        (
          make_execution_start-ok l.head id (head-is_sha256 h l c) solid,
          new,
          append_execution_start,
        )
        (append_here h l c last at_end execution_start
          (execution_start_payload (record { prediction_commit_hash = l.head; execution_id = id }))
          p d paid sealed fresh (rw t)
          (rw (
            t,
            make_execution_start-ok l.head id (head-is_sha256 h l c) solid,
            eq_refl l.head,
            new,
          )))

  -- On a ledger whose head is an execution start, a result that names it by its hash, and is the
  -- first to do so, is recorded.
  pub append_execution_result_lem :
      (ref : String)
      → last.event_type ≡ execution_start
      → is_sha256 ref ≡ true
      → contains l.head l.execution_result_starts ≡ false
      → digest h (
          dict
            (execution_result_payload (record { execution_start_hash = l.head; result_ref = ref })))
        ≡ ok p
      → digest h (material execution_result (event_count l) l.head p) ≡ ok d
      → Grows h l p d execution_result (append_execution_result h l.head ref l)
  unfolding append_execution_result make_execution_result execution_result_payload
      execution_result_of validate_type expected
  append_execution_result_lem ref t valid new paid sealed =
      rw
        (
          make_execution_result-ok l.head ref (head-is_sha256 h l c) valid,
          new,
          append_execution_result,
        )
        (append_here h l c last at_end execution_result
          (execution_result_payload (record { execution_start_hash = l.head; result_ref = ref })) p
          d paid sealed fresh (rw t)
          (rw (
            t,
            make_execution_result-ok l.head ref (head-is_sha256 h l c) valid,
            eq_refl l.head,
            new,
          )))

  -- On a ledger whose head is an execution result, an evidence reference that names it by its hash,
  -- and is the first to do so, is recorded.
  pub append_evidence_record_lem :
      (ref : String)
      → last.event_type ≡ execution_result
      → is_sha256 ref ≡ true
      → contains l.head l.evidence_results ≡ false
      → digest h (
          dict (
            evidence_record_payload
              (record { execution_result_hash = l.head; evidence_ref = ref })))
        ≡ ok p
      → digest h (material evidence_record (event_count l) l.head p) ≡ ok d
      → Grows h l p d evidence_record (append_evidence_record h l.head ref l)
  unfolding append_evidence_record make_evidence_record evidence_record_payload evidence_record_of
      validate_type expected
  append_evidence_record_lem ref t valid new paid sealed =
      rw
        (
          make_evidence_record-ok l.head ref (head-is_sha256 h l c) valid,
          new,
          append_evidence_record,
        )
        (append_here h l c last at_end evidence_record
          (evidence_record_payload (record { execution_result_hash = l.head; evidence_ref = ref }))
          p d paid sealed fresh (rw t)
          (rw (
            t,
            make_evidence_record-ok l.head ref (head-is_sha256 h l c) valid,
            eq_refl l.head,
            new,
          )))
