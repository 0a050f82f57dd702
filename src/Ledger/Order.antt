-- ===== src/Ledger/Order.antt =====
-- Every ledger that the methods can produce, from any calls in any order, whether they raise or not.
use jamp.Prelude.{
  ℕ, suc, ◌≤◌, String, ◌≡◌, refl, none, some, List, [], ◌∷◌, Except, ok, err, arith, length, take,
  Bool, true, false, if◌then◌else◌,
}
use jamp.Prelude.Dict.{Dict, contains}
use jamp.Canonical.{str, Fields, end, Hasher}
use jamp.Ledger.Payload.{
  Error, ledger_error, EventType, genesis, prediction_commit, execution_start, execution_result,
  evidence_record, make_prediction_commit, make_execution_start, make_execution_result,
  make_evidence_record,
}
use jamp.Ledger.Event.{CausalEvent, build_event}
use jamp.Ledger.Validate.{CausalLedger, Action, empty, expected, event_count}
use jamp.Ledger.Append.{
  build_and_append, append, append_genesis, append_prediction_commit, append_execution_start,
  append_execution_result, append_evidence_record,
}
use jamp.Ledger.Chain.{Linked, IsChain, empty-IsChain, append-IsChain}

-- A call of a public method that can change the ledger.
pub data Request : Type 0 where
  event : CausalEvent → Fields → Request
  at_genesis : Request
  prediction : String → Request
  start : String → String → Request
  result : String → String → Request
  evidence : String → String → Request

unfoldable pub perform : Hasher → Request → Action CausalEvent
perform h (event e payload) = append h e payload
perform h at_genesis = append_genesis h
perform h (prediction p) = append_prediction_commit h p
perform h (start p i) = append_execution_start h p i
perform h (result s r) = append_execution_result h s r
perform h (evidence r e) = append_evidence_record h r e

-- A client that goes on after an exception.
unfoldable pub serve : Hasher → List Request → CausalLedger → CausalLedger
unfolding perform
serve h [] l = l
serve h (q ∷ qs) l = serve h qs (perform h q l).1

module _ (h : Hasher) where
  built-IsChain :
      (b : Except Error CausalEvent) (payload : Fields) (l : CausalLedger)
      → IsChain h l
      → let r : Except Error CausalEvent × CausalLedger = elim b [
        | err e ↦ (err e, l)
        | ok x ↦ append h x payload l
      ] in
        IsChain h r.1
  built-IsChain (err e) payload l c = c
  built-IsChain (ok x) payload l c = append-IsChain h x payload l c

  build_and_append-IsChain :
      (t : EventType) (n : ℕ) (parent : String) (payload : Fields) (l : CausalLedger)
      → IsChain h l
      → IsChain h (build_and_append h t n parent payload l).1
  build_and_append-IsChain t n parent payload l c =
      built-IsChain (build_event h t n parent payload) payload l c

  -- A method that reads its arguments, refuses a duplicate, and appends.
  checked-IsChain :
      {P : Type 0} (m : Except Error P) (seen : Bool) (e : Error) (l : CausalLedger)
      (f : P → Except Error CausalEvent × CausalLedger)
      → IsChain h l
      → ((p : P) → IsChain h (f p).1)
      → let r : Except Error CausalEvent × CausalLedger = elim m [
        | err x ↦ (err x, l)
        | ok p ↦ if seen then (err e, l) else f p
      ] in
        IsChain h r.1
  checked-IsChain (err x) seen e l f c k = c
  checked-IsChain (ok p) true e l f c k = c
  checked-IsChain (ok p) false e l f c k = k p

  perform-IsChain : (q : Request) (l : CausalLedger) → IsChain h l → IsChain h (perform h q l).1
  unfolding perform append_genesis append_prediction_commit append_execution_start
      append_execution_result append_evidence_record
  perform-IsChain (event e payload) l c = append-IsChain h e payload l c
  perform-IsChain at_genesis l c = build_and_append-IsChain genesis 0 _ end l c
  perform-IsChain (prediction p) l c =
      checked-IsChain (make_prediction_commit (str p)) false ledger_error l _ c
        λ x. build_and_append-IsChain prediction_commit (event_count l) l.head _ l c
  perform-IsChain (start p i) l c =
      checked-IsChain (make_execution_start (str p) (str i)) (contains i l.execution_ids) _ l _ c
        λ x. build_and_append-IsChain execution_start (event_count l) l.head _ l c
  perform-IsChain (result s r) l c =
      checked-IsChain (make_execution_result (str s) (str r)) (contains s l.execution_result_starts)
        _ l _ c λ x. build_and_append-IsChain execution_result (event_count l) l.head _ l c
  perform-IsChain (evidence r e) l c =
      checked-IsChain (make_evidence_record (str r) (str e)) (contains r l.evidence_results) _ l _ c
        λ x. build_and_append-IsChain evidence_record (event_count l) l.head _ l c

  -- Whatever calls of `append` and the five methods are made on a well-formed ledger, some of which
  -- may raise, the ledger stays one chain: sequence numbers, parents, hashes and head in order.
  pub serve-IsChain :
      (qs : List Request) (l : CausalLedger) → IsChain h l → IsChain h (serve h qs l)
  unfolding serve
  serve-IsChain [] l c = c
  serve-IsChain (q ∷ qs) l c = serve-IsChain qs (perform h q l).1 (perform-IsChain q l c)

-- The one order in which a ledger can hold its events.
abbrev pub lifecycle : List EventType
lifecycle = genesis ∷ prediction_commit ∷ execution_start ∷ execution_result ∷ evidence_record ∷ []

abbrev pub types : Dict CausalEvent → List EventType
types [] = []
types ((k, e) ∷ d) = e.event_type ∷ types d

abbrev after : EventType → List EventType
after genesis = prediction_commit ∷ execution_start ∷ execution_result ∷ evidence_record ∷ []
after prediction_commit = execution_start ∷ execution_result ∷ evidence_record ∷ []
after execution_start = execution_result ∷ evidence_record ∷ []
after execution_result = evidence_record ∷ []
after evidence_record = []

abbrev IsPrefixOf : List EventType → ℕ → List EventType → Type 0
IsPrefixOf all n ts = (ts ≡ take n all) × (n ≤ length all)

after-step :
    (s t : EventType) (n : ℕ) (ts : List EventType)
    → expected s ≡ some t
    → IsPrefixOf (after t) n ts
    → IsPrefixOf (after s) (suc n) (t ∷ ts)
unfolding expected
after-step genesis t n ts e p = ground arith
after-step _ t n ts e p = ground arith

module _ (h : Hasher) where
  Linked-after :
      (prev : CausalEvent) (d : Dict CausalEvent)
      → Linked h (some prev) d
      → IsPrefixOf (after prev.event_type) (length d) (types d)
  Linked-after prev [] c = (refl, omega arith)
  Linked-after prev ((k, e) ∷ d) c =
      after-step prev.event_type e.event_type (length d) (types d) c.2.0 (Linked-after e d c.3)

  Linked-lifecycle :
      (d : Dict CausalEvent) → Linked h none d → IsPrefixOf lifecycle (length d) (types d)
  Linked-lifecycle [] c = (refl, omega arith)
  Linked-lifecycle ((k, e) ∷ d) c = ground (arith, Linked-after e d c.3)

  -- After any calls on a new ledger, in any order and whether they raised or not, the events are in
  -- the order of the life cycle from GENESIS on, so there are at most five of them.
  pub serve-lifecycle :
      (qs : List Request)
      → let l = serve h qs empty in
        (types l.events ≡ take (event_count l) lifecycle) × (event_count l ≤ 5)
  serve-lifecycle qs =
      Linked-lifecycle (serve h qs empty).events (serve-IsChain h qs empty (empty-IsChain h)).linked
