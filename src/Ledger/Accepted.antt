-- ===== src/Ledger/Accepted.antt =====
-- What `_validate` has established when it returns.
use jamp.Prelude.{
  ℕ, suc, String, ◌≡◌, refl, ap, inl, inr, Bool, true, false, Option, none, some, [], ◌∷◌, Except,
  ok, err, ◌>>=◌, ◌>>◌, ◌&&◌, ◌==◌, require, refuse_if, eq_iff, subst, sym, ok-of-bind, arith,
  Option-cases, nat_beq,
}
use jamp.Prelude.Dict.{Dict, lookup, is_some, has_key, contains}
use jamp.Canonical.{Fields, dict, Hasher}
use jamp.Ledger.Payload.{
  Error, causal_order_violation, execution_result_missing, ExecutionStart, ExecutionResult,
  EvidenceRecord, execution_start_of, execution_result_of, evidence_record_of, EventType, genesis,
  prediction_commit, execution_start, execution_result, evidence_record,
}
use jamp.Ledger.Payload.{has_field}
use jamp.Ledger.Event.{CausalEvent, zero_hash, digest, hash_material, verify_event_hash}
use jamp.Ledger.Validate.{
  CausalLedger, expected, same_type, validate_type, validate_next, validate_first, validate,
}
use jamp.Ledger.Append.{record_binding}

require-ok :
    {E : Type 0} {A : Type 0} (b : Bool) (e : E) (m : Except E A) {a : A}
    → (require b e >> m) ≡ ok a
    → (b ≡ true) × (m ≡ ok a)
require-ok true e m h = (refl, h)
require-ok false e m h = cc

refuse_if-ok :
    {E : Type 0} {A : Type 0} (b : Bool) (e : E) (m : Except E A) {a : A}
    → (refuse_if b e >> m) ≡ ok a
    → (b ≡ false) × (m ≡ ok a)
refuse_if-ok true e m h = cc
refuse_if-ok false e m h = (refl, h)

pub same_type-eq : (a b : EventType) → same_type a b ≡ true → a ≡ b
same_type-eq genesis genesis h = refl
same_type-eq prediction_commit prediction_commit h = refl
same_type-eq execution_start execution_start h = refl
same_type-eq execution_result execution_result h = refl
same_type-eq evidence_record evidence_record h = refl
same_type-eq _ _ h = cc

-- The payload can be read as the class of its event type.
abbrev pub Binds : EventType → Fields → Type 0
Binds t payload = (l : CausalLedger) → (record_binding t payload l).0 ≡ ok tt

-- The payload names the event before this one by its hash, and what it uses up is not in use yet: an execution
-- its id, a result the start, an evidence record the result.
abbrev pub Bound : EventType → CausalLedger → CausalEvent → Fields → Type 0
Bound execution_start l event payload =
    (s : ExecutionStart) × (execution_start_of payload ≡ ok s)
    × (s.prediction_commit_hash ≡ event.parent_hash)
    × (contains s.execution_id l.execution_ids ≡ false)
Bound execution_result l event payload =
    (s : ExecutionResult) × (execution_result_of payload ≡ ok s)
    × (s.execution_start_hash ≡ event.parent_hash)
    × (contains s.execution_start_hash l.execution_result_starts ≡ false)
Bound evidence_record l event payload =
    (s : EvidenceRecord) × (evidence_record_of payload ≡ ok s)
    × (s.execution_result_hash ≡ event.parent_hash)
    × (contains s.execution_result_hash l.evidence_results ≡ false)
Bound genesis l event payload = Unit
Bound prediction_commit l event payload = Unit

not_refused : {E : Type 0} (b : Bool) (e : E) → refuse_if b e ≡ ok tt → b ≡ false
not_refused true e h = cc
not_refused false e h = refl

module _ (l : CausalLedger) (event : CausalEvent) (payload : Fields) where
  pub validate_type-Bound :
      (last t : EventType) → validate_type l last t event payload ≡ ok tt → Bound t l event payload
  unfolding validate_type
  validate_type-Bound last genesis h = tt
  validate_type-Bound last prediction_commit h = tt
  validate_type-Bound last execution_start h =
      let (t, h1) = require-ok (same_type last prediction_commit) _ _ h in
      let (s, e, h2) = ok-of-bind (execution_start_of payload) _ h1 in
      let (same, h3) = require-ok (s.prediction_commit_hash == event.parent_hash) _ _ h2 in
      (s, e, (eq_iff s.prediction_commit_hash event.parent_hash).0 same, not_refused _ _ h3)
  validate_type-Bound last execution_result h =
      let (t, h1) = require-ok (same_type last execution_start) _ _ h in
      let (s, e, h2) = ok-of-bind (execution_result_of payload) _ h1 in
      let (same, h3) = require-ok (s.execution_start_hash == event.parent_hash) _ _ h2 in
      (s, e, (eq_iff s.execution_start_hash event.parent_hash).0 same, not_refused _ _ h3)
  validate_type-Bound last evidence_record h =
      let (u, _, h1) =
        ok-of-bind
          (require (has_field "execution_result_hash" payload && has_field "evidence_ref" payload)
              causal_order_violation
            >> require (same_type last execution_result) execution_result_missing)
          _ h in
      let (s, e, h2) = ok-of-bind (evidence_record_of payload) _ h1 in
      let (same, h3) = require-ok (s.execution_result_hash == event.parent_hash) _ _ h2 in
      (s, e, (eq_iff s.execution_result_hash event.parent_hash).0 same, not_refused _ _ h3)

  validate_type-expected :
      (last t : EventType) → validate_type l last t event payload ≡ ok tt → expected last ≡ some t
  unfolding validate_type expected
  validate_type-expected genesis genesis h = cc
  validate_type-expected _ genesis h = cc
  validate_type-expected _ prediction_commit h = ground arith
  validate_type-expected last execution_start h =
      ground (arith, same_type-eq last prediction_commit)
  validate_type-expected last execution_result h = ground (arith, same_type-eq last execution_start)
  validate_type-expected last evidence_record h = ground (arith, same_type-eq last execution_result)

  pub validate_type-Binds :
      (last t : EventType) → validate_type l last t event payload ≡ ok tt → Binds t payload
  unfolding validate_type record_binding
  validate_type-Binds last genesis h k = refl
  validate_type-Binds last prediction_commit h k = refl
  validate_type-Binds last execution_start h k = ground arith
  validate_type-Binds last execution_result h k = ground arith
  validate_type-Binds last evidence_record h k = ground arith

-- The place of an accepted event: the first of the ledger, or after the event at its head.
pub data Placed (l : CausalLedger) (event : CausalEvent) : Type 0 where
  first :
      l.events ≡ []
      → event.event_type ≡ genesis
      → event.sequence_index ≡ 0
      → event.parent_hash ≡ zero_hash
      → Placed l event
  next :
      (last : CausalEvent)
      → lookup l.head l.events ≡ some last
      → event.parent_hash ≡ l.head
      → event.sequence_index ≡ suc last.sequence_index
      → expected last.event_type ≡ some event.event_type
      → Placed l event

pub record Accepted (h : Hasher) (l : CausalLedger) (event : CausalEvent) (payload : Fields)
    : Type 0 where
  pub fresh : lookup event.event_hash l.events ≡ none
  pub sealed : digest h (hash_material event) ≡ ok event.event_hash
  pub paid : digest h (dict payload) ≡ ok event.payload_hash
  pub placed : Placed l event
  pub binds : Binds event.event_type payload
  pub bound : Bound event.event_type l event payload

nat_beq-eq : (a b : ℕ) → nat_beq a b ≡ true → a ≡ b
nat_beq-eq a b h = ground arith

module _ (l : CausalLedger) (event : CausalEvent) (payload : Fields) where
  genesis-Binds : event.event_type ≡ genesis → Binds event.event_type payload
  unfolding record_binding
  genesis-Binds e k = rw e

  genesis-Bound : event.event_type ≡ genesis → Bound event.event_type l event payload
  genesis-Bound e = subst (λ t. Bound t l event payload) (sym e) tt

  validate_first-Placed :
      l.events ≡ []
      → validate_first event ≡ ok tt
      → Placed l event × Binds event.event_type payload × Bound event.event_type l event payload
  unfolding validate_first
  validate_first-Placed none_yet h =
      let (t, rest) =
        require-ok (same_type event.event_type genesis) _
          (require (nat_beq event.sequence_index 0 && event.parent_hash == zero_hash) _) h in
      let e = same_type-eq event.event_type genesis t in
      (
        first none_yet e (ground arith) ((eq_iff event.parent_hash zero_hash).0 (ground arith)),
        genesis-Binds e,
        genesis-Bound e,
      )

  validate_next-Placed :
      validate_next l event payload ≡ ok tt
      → Placed l event × Binds event.event_type payload × Bound event.event_type l event payload
  unfolding validate_next
  validate_next-Placed h = elim (Option-cases (lookup l.head l.events)) [
    | inl missing ↦ absurd (ground arith)
    | inr (last, found) ↦ (
      next last found ((eq_iff event.parent_hash l.head).0 (ground arith)) (ground arith)
          (validate_type-expected l event payload last.event_type event.event_type (ground arith)),
      validate_type-Binds l event payload last.event_type event.event_type (ground arith),
      validate_type-Bound l event payload last.event_type event.event_type (ground arith),
    )
  ]

  where_placed :
      (d : Dict CausalEvent)
      → l.events ≡ d
      → (elim d [ [] ↦ validate_first event | _ ∷ _ ↦ validate_next l event payload ]) ≡ ok tt
      → Placed l event × Binds event.event_type payload × Bound event.event_type l event payload
  where_placed [] e h = validate_first-Placed e h
  where_placed (x ∷ d) e h = validate_next-Placed h

  digest_checked :
      (h : Hasher) (p : Except Error String) (want : String) (m : Except Error (Unit {0}))
      (e : Error)
      → (p >>= λ d. require (d == want) e >> m) ≡ ok tt
      → (p ≡ ok want) × (m ≡ ok tt)
  digest_checked h (ok d) want m e r =
      let (same, rest) = require-ok (d == want) e m r in (ap ok ((eq_iff d want).0 same), rest)
  digest_checked h (err x) want m e r = cc

  hash_checked :
      (p : Except Error String) (m : Except Error (Unit {0})) (e : Error)
      → ((p >>= λ d. ok (d == event.event_hash)) >>= λ good. require good e >> m) ≡ ok tt
      → (p ≡ ok event.event_hash) × (m ≡ ok tt)
  hash_checked (ok d) m e r =
      let (same, rest) = require-ok (d == event.event_hash) e m r in
      (ap ok ((eq_iff d event.event_hash).0 same), rest)
  hash_checked (err x) m e r = cc

  fresh_key : (o : Option CausalEvent) → is_some o ≡ false → o ≡ none
  fresh_key none h = refl
  fresh_key (some x) h = cc

  -- An event that passes `_validate` is new, its hash and the hash of its payload are right, it has
  -- its place in the chain, and its payload can be read and is bound to the event before it.
  pub validate-Accepted :
      (h : Hasher) → validate h l event payload ≡ ok tt → Accepted h l event payload
  unfolding validate verify_event_hash
  validate-Accepted h r =
      let (new, r1) = refuse_if-ok (has_key event.event_hash l.events) _ _ r in
      let (sealed, r2) = hash_checked (digest h (hash_material event)) _ _ r1 in
      let (paid, r3) = digest_checked h (digest h (dict payload)) event.payload_hash _ _ r2 in
      let (placed, binds, bound) = where_placed l.events refl r3 in
      record {
        fresh = fresh_key (lookup event.event_hash l.events) new;
        sealed = sealed;
        paid = paid;
        placed = placed;
        binds = binds;
        bound = bound;
      }
