-- ===== src/Ledger/Chain.antt =====
-- The invariant of the ledger: one chain of events with sequence numbers and hashes in order.
use jamp.Prelude.{
  suc, String, ◌≡◌, refl, sym, ap, ◌∙◌, Option, none, some, [], ◌∷◌, ◌++◌, Except, ok, err, arith,
}
use jamp.Prelude.Dict.{Dict, lookup, insert, insert-new, lookup-insert_self}
use jamp.Canonical.{Fields, Hasher}
use jamp.Ledger.Payload.{Error, EventType, genesis}
use jamp.Ledger.Event.{CausalEvent, zero_hash, digest, hash_material}
use jamp.Ledger.Validate.{CausalLedger, empty, expected, validate}
use jamp.Ledger.Append.{record_binding, move_head, append}
use jamp.Ledger.Accepted.{Accepted, Placed, first, next, validate-Accepted}

-- `event` may stand behind `prev`, or first.
abbrev pub Follows : Option CausalEvent → CausalEvent → Type 0
Follows none event =
    (event.event_type ≡ genesis) × (event.sequence_index ≡ 0) × (event.parent_hash ≡ zero_hash)
Follows (some prev) event =
    (expected prev.event_type ≡ some event.event_type)
    × (event.sequence_index ≡ suc prev.sequence_index)
    × (event.parent_hash ≡ prev.event_hash)

abbrev pub Linked : Hasher → Option CausalEvent → Dict CausalEvent → Type 0
Linked h prev [] = Unit
Linked h prev ((k, event) ∷ d) =
    (k ≡ event.event_hash)
    × (digest h (hash_material event) ≡ ok event.event_hash)
    × Follows prev event
    × Linked h (some event) d

abbrev pub last_of : Option CausalEvent → Dict CausalEvent → Option CausalEvent
last_of prev [] = prev
last_of prev ((k, event) ∷ d) = last_of (some event) d

abbrev pub hash_of : Option CausalEvent → String
hash_of none = zero_hash
hash_of (some event) = event.event_hash

pub record IsChain (h : Hasher) (l : CausalLedger) : Type 0 where
  pub linked : Linked h none l.events
  pub head : l.head ≡ hash_of (last_of none l.events)
  pub found : lookup l.head l.events ≡ last_of none l.events

pub empty-IsChain : (h : Hasher) → IsChain h empty
empty-IsChain h = record { linked = tt; head = refl; found = refl }

module _ (h : Hasher) where
  last-append :
      (prev : Option CausalEvent) (d : Dict CausalEvent) (k : String) (event : CausalEvent)
      → last_of prev (d ++ (k, event) ∷ []) ≡ some event
  last-append prev [] k event = refl
  last-append prev ((j, e) ∷ d) k event = last-append (some e) d k event

  Linked-append :
      (prev : Option CausalEvent) (d : Dict CausalEvent) (event : CausalEvent)
      → Linked h prev d
      → digest h (hash_material event) ≡ ok event.event_hash
      → Follows (last_of prev d) event
      → Linked h prev (d ++ (event.event_hash, event) ∷ [])
  Linked-append prev [] event c s f = (refl, s, f, tt)
  Linked-append prev ((j, e) ∷ d) event c s f =
      (c.0, c.1, c.2, Linked-append (some e) d event c.3 s f)

  -- What the checks establish of an event's place is what the chain needs.
  Placed-Follows :
      (l : CausalLedger) (event : CausalEvent)
      → IsChain h l
      → Placed l event
      → Follows (last_of none l.events) event
  Placed-Follows l event c (first e t s p) = rw e (t, s, p)
  Placed-Follows l event c (next last found p s t) =
      let e = sym c.found ∙ found in rw e (t, s, p ∙ c.head ∙ ap hash_of e)

  -- The ledger after an append that succeeds, up to the three index sets.
  abbrev pub Extends : CausalLedger → CausalEvent → CausalLedger → Type 0
  Extends l event l' =
      (l'.events ≡ l.events ++ (event.event_hash, event) ∷ []) × (l'.head ≡ event.event_hash)

  Extends-IsChain :
      (l l' : CausalLedger) (event : CausalEvent) (payload : Fields)
      → IsChain h l
      → Accepted h l event payload
      → Extends l event l'
      → IsChain h l'
  Extends-IsChain l l' event payload c a (e, top) = record {
    linked =
        rw e
          (Linked-append none l.events event c.linked a.sealed (Placed-Follows l event c a.placed));
    head = rw (e, last-append) top;
    found =
        rw (e, top, last-append, ← insert-new event.event_hash event l.events a.fresh)
          (lookup-insert_self event.event_hash event l.events);
  }

  binding_keeps :
      (t : EventType) (payload : Fields) (l : CausalLedger)
      → ((record_binding t payload l).1.events ≡ l.events)
        × ((record_binding t payload l).1.head ≡ l.head)
  unfolding record_binding
  binding_keeps genesis payload l = (refl, refl)
  binding_keeps _ payload l = ground arith

  -- How a call of `append` ends: it raises and leaves the ledger as it was, or it returns the event,
  -- which has passed every check and is now the head.
  abbrev pub Appended :
      CausalLedger → CausalEvent → Fields → Except Error CausalEvent × CausalLedger → Type 0
  Appended l event payload (err e, l') = l' ≡ l
  Appended l event payload (ok x, l') =
      (x ≡ event) × Extends l event l' × Accepted h l event payload

  pub moved-Appended :
      (l l' : CausalLedger) (event : CausalEvent) (payload : Fields)
      (m : Except Error (Unit {0}) × CausalLedger)
      → Accepted h l event payload
      → m.0 ≡ ok tt
      → m.1.events ≡ insert event.event_hash event l.events
      → Appended l event payload (move_head event m)
  moved-Appended l l' event payload (ok u, k) a good same =
      (refl, (same ∙ insert-new event.event_hash event l.events a.fresh, refl), a)
  moved-Appended l l' event payload (err e, k) a good same = absurd (cc good)

  validated-Appended :
      (l : CausalLedger) (event : CausalEvent) (payload : Fields) (v : Except Error (Unit {0}))
      → validate h l event payload ≡ v
      → Appended l event payload (elim v [
        | err e ↦ (err e, l)
        | ok _ ↦ move_head event (
            record_binding event.event_type payload
              (record l { events = insert event.event_hash event l.events }))
      ])
  validated-Appended l event payload (err e) r = refl
  validated-Appended l event payload (ok u) r =
      let a = validate-Accepted l event payload h r in
      let l1 = record l { events = insert event.event_hash event l.events } in
      moved-Appended l l1 event payload (record_binding event.event_type payload l1) a (a.binds l1)
        (binding_keeps event.event_type payload l1).0

  -- Every append is atomic: it raises and has changed nothing, though the payload is read again after
  -- the event has been stored, or it returns the event, which stands last in the table and is the head.
  -- The event is new, its two hashes are right, it has its place behind the head, and its payload can be
  -- read; that of an execution start, an execution result or an evidence record names the event before it, and the
  -- execution id, start or result that it uses is not in the ledger's set of those in use.
  pub append-Appended :
      (event : CausalEvent) (payload : Fields) (l : CausalLedger)
      → Appended l event payload (append h event payload l)
  unfolding append
  append-Appended event payload l =
      validated-Appended l event payload (validate h l event payload) refl

  result-IsChain :
      (l : CausalLedger) (event : CausalEvent) (payload : Fields)
      (m : Except Error CausalEvent × CausalLedger)
      → IsChain h l
      → Appended l event payload m
      → IsChain h m.1
  result-IsChain l event payload (err e, l') c a = rw a c
  result-IsChain l event payload (ok x, l') c a = Extends-IsChain l l' event payload c a.2 a.1

  pub append-IsChain :
      (event : CausalEvent) (payload : Fields) (l : CausalLedger)
      → IsChain h l
      → IsChain h (append h event payload l).1
  append-IsChain event payload l c =
      result-IsChain l event payload (append h event payload l) c (append-Appended event payload l)
