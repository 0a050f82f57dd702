-- ===== src/Ledger/Progress.antt =====
-- What an append of an event built on the head of the causal ledger does.
use jamp.Prelude.{
  ℕ, suc, ◌+◌, String, ◌≡◌, refl, ◌∙◌, true, false, Option, none, some, [], ◌∷◌, Except, ok, err,
  arith, length, nat_beq, Except-cases, inl, inr,
}
use text.Mathlib.TextPositions.{eq_refl}
use jamp.Prelude.Text.{is_sha256}
use jamp.Prelude.Dict.{Dict, lookup, insert}
use jamp.Canonical.{Value, Fields, dict, Hasher, replay_hash, canonical_bytes}
use jamp.Ledger.Payload.{Error, EventType, genesis, evidence_record, parse_type}
use jamp.Ledger.Event.{
  CausalEvent, zero_hash, digest, material, hash_material, verify_event_hash, make_event,
  build_event,
}
use jamp.Ledger.Validate.{
  CausalLedger, expected, event_count, same_type, validate_type, validate_next, validate,
}
use jamp.Ledger.Append.{record_binding, move_head, build_and_append, append}
use jamp.Ledger.Accepted.{Binds, validate_type-Binds}
use jamp.Ledger.Chain.{Linked, last_of, hash_of, IsChain, Appended, Extends, append-Appended}

-- The event that a method builds on a ledger, by its type and its two digests.
abbrev pub event_at : CausalLedger → EventType → String → String → CausalEvent
event_at l t p d = record {
  event_type = t;
  sequence_index = event_count l;
  parent_hash = l.head;
  payload_hash = p;
  event_hash = d;
}

follows_not_genesis : (s t : EventType) → expected s ≡ some t → same_type t genesis ≡ false
unfolding expected
follows_not_genesis genesis genesis e = cc
follows_not_genesis _ genesis e = cc
follows_not_genesis _ _ e = refl

follows_not_evidence : (s t : EventType) → expected s ≡ some t → same_type s evidence_record ≡ false
unfolding expected
follows_not_evidence evidence_record t e = cc
follows_not_evidence _ t e = refl

nat_beq_refl : {a b : ℕ} → a ≡ b → nat_beq b a ≡ true
nat_beq_refl e = ground arith

module _ (h : Hasher) where
  digest-is_sha256 : (v : Value) (d : String) → digest h v ≡ ok d → is_sha256 d ≡ true
  unfolding digest replay_hash
  digest-is_sha256 v d e = elim (Except-cases (canonical_bytes h v)) [
    | inl (bytes, b) ↦ grind (arith, h.sha256_lem bytes)
    | inr (x, b) ↦ ground arith
  ]

  last-is_sha256 :
      (prev : Option CausalEvent) (d : Dict CausalEvent)
      → Linked h prev d
      → is_sha256 (hash_of prev) ≡ true
      → is_sha256 (hash_of (last_of prev d)) ≡ true
  last-is_sha256 prev [] c s = s
  last-is_sha256 prev ((k, e) ∷ d) c s =
      last-is_sha256 (some e) d c.3 (digest-is_sha256 (hash_material e) e.event_hash c.1)

  zero-is_sha256 : is_sha256 zero_hash ≡ true
  unfolding is_sha256
  zero-is_sha256 = refl

  pub head-is_sha256 : (l : CausalLedger) → IsChain h l → is_sha256 l.head ≡ true
  head-is_sha256 l c = rw c.head (last-is_sha256 none l.events c.linked zero-is_sha256)

  last_index :
      (prev : CausalEvent) (d : Dict CausalEvent) (last : CausalEvent)
      → Linked h (some prev) d
      → last_of (some prev) d ≡ some last
      → last.sequence_index ≡ prev.sequence_index + length d
  last_index prev [] last c e = ground arith
  last_index prev ((k, e) ∷ d) last c same = omega (arith, last_index e d last c.3 same, c.2.1)

  -- The head's sequence number counts the events behind it.
  pub count_events :
      (d : Dict CausalEvent) (last : CausalEvent)
      → Linked h none d
      → last_of none d ≡ some last
      → suc last.sequence_index ≡ length d
  count_events [] last c e = cc
  count_events ((k, e) ∷ d) last c same = omega (arith, last_index e d last c.3 same, c.2.1)

  build_event_lem :
      (t : EventType) (n : ℕ) (parent : String) (payload : Fields) (p d : String)
      → is_sha256 parent ≡ true
      → digest h (dict payload) ≡ ok p
      → digest h (material t n parent p) ≡ ok d
      → build_event h t n parent payload
        ≡ ok (record {
          event_type = t;
          sequence_index = n;
          parent_hash = parent;
          payload_hash = p;
          event_hash = d;
        })
  unfolding build_event make_event parse_type
  build_event_lem genesis n parent payload p d ph e1 e2 = rw (
    e1,
    e2,
    ph,
    digest-is_sha256 (dict payload) p e1,
    digest-is_sha256 (material genesis n parent p) d e2,
  )
  build_event_lem t n parent payload p d ph e1 e2 = rw (
    e1,
    e2,
    ph,
    digest-is_sha256 (dict payload) p e1,
    digest-is_sha256 (material t n parent p) d e2,
  )

  moved-ok :
      (event : CausalEvent) (m : Except Error (Unit {0}) × CausalLedger)
      → m.0 ≡ ok tt
      → (move_head event m).0 ≡ ok event
  moved-ok event (ok u, l) e = refl
  moved-ok event (err x, l) e = cc

  returned :
      (l : CausalLedger) (event : CausalEvent) (payload : Fields)
      (m : Except Error CausalEvent × CausalLedger)
      → Appended h l event payload m
      → m.0 ≡ ok event
      → (m.0 ≡ ok event) × Extends h l event m.1
  returned l event payload (ok x, l') a e = (e, a.1)
  returned l event payload (err x, l') a e = absurd (cc e)

  append-returns :
      (l : CausalLedger) (event : CausalEvent) (payload : Fields)
      → Binds event.event_type payload
      → validate h l event payload ≡ ok tt
      → (append h event payload l).0 ≡ ok event
  unfolding append
  append-returns l event payload binds v =
      rw (v, append)
        (moved-ok event
          (record_binding event.event_type payload
            (record l { events = insert event.event_hash event l.events }))
          (binds (record l { events = insert event.event_hash event l.events })))

  append-ok :
      (l : CausalLedger) (event : CausalEvent) (payload : Fields)
      → Binds event.event_type payload
      → validate h l event payload ≡ ok tt
      → ((append h event payload l).0 ≡ ok event) × Extends h l event (append h event payload l).1
  append-ok l event payload binds v =
      returned l event payload (append h event payload l) (append-Appended h event payload l)
        (append-returns l event payload binds v)

  nonempty_events :
      {A : Type 0} (d : Dict CausalEvent) (last : CausalEvent) (x y : A)
      → last_of none d ≡ some last
      → (elim d [ [] ↦ x | _ ∷ _ ↦ y ]) ≡ y
  nonempty_events [] last x y e = cc
  nonempty_events (_ ∷ _) last x y e = refl

  module _ (l : CausalLedger) (c : IsChain h l) (last : CausalEvent)
      (at_end : last_of none l.events ≡ some last) (t : EventType) (payload : Fields) (p d : String)
      (paid : digest h (dict payload) ≡ ok p)
      (sealed : digest h (material t (event_count l) l.head p) ≡ ok d)
      (fresh : lookup d l.events ≡ none) where
    next-ok :
        expected last.event_type ≡ some t
        → validate_type l last.event_type t (event_at l t p d) payload ≡ ok tt
        → validate_next l (event_at l t p d) payload ≡ ok tt
    unfolding validate_next expected
    next-ok follows good =
        let n = nat_beq_refl (count_events l.events last c.linked at_end) in
        rw
          (
            follows_not_genesis last.event_type t follows,
            c.found ∙ at_end,
            eq_refl l.head,
            n,
            follows_not_evidence last.event_type t follows,
          )
          good

    validate-ok :
        expected last.event_type ≡ some t
        → validate_type l last.event_type t (event_at l t p d) payload ≡ ok tt
        → validate h l (event_at l t p d) payload ≡ ok tt
    unfolding validate verify_event_hash hash_material
    validate-ok follows good =
        rw (fresh, sealed, eq_refl, paid, eq_refl)
          (nonempty_events l.events last _ _ at_end ∙ next-ok follows good)

    -- The event that a method builds here is accepted, and becomes the head.
    pub append_here :
        expected last.event_type ≡ some t
        → validate_type l last.event_type t (event_at l t p d) payload ≡ ok tt
        → let r = build_and_append h t (event_count l) l.head payload l in
          (r.0 ≡ ok (event_at l t p d)) × Extends h l (event_at l t p d) r.1
    append_here follows good =
        rw
          (
            build_event_lem t (event_count l) l.head payload p d (head-is_sha256 l c) paid sealed,
            build_and_append,
          )
          (append-ok l (event_at l t p d) payload
            (validate_type-Binds l (event_at l t p d) payload last.event_type t good)
            (validate-ok follows good))
