-- ===== src/History/Rebuilt.antt =====
-- What a replay rebuilds: the records of the events in their order, each id once.
use jamp.Prelude.{
  ℕ, String, ◌≡◌, refl, Bool, true, false, not, Option, none, some, List, [], ◌∷◌, ◌++◌, Except, ok,
  err, ◌>>=◌, nat_beq, if◌then◌else◌, ap, sym, subst, ◌∙◌, ok-of-bind,
}
use mathlib.Core.List.{append_assoc, append-nil}
use jamp.Canonical.{Value}
use jamp.Registry.{
  RegistryRecord, Registry, RegistryError, unauthorized_registry_mutation, duplicate_record_id,
  commit_add, has_id, Distinct, Distinct-append,
}
use jamp.Causal.Order.{EventNode}
use jamp.History.Replay.{
  Replayed, refused, committed, record_of, apply_event, apply_all, replay_ordered,
}

abbrev pub push : Option RegistryRecord → List RegistryRecord → List RegistryRecord
push none rs = rs
push (some r) rs = r ∷ rs

module _ (show : Value → String) where
  -- The records of the events that commit one, in order.
  pub projection : List EventNode → Replayed (List RegistryRecord)
  projection [] = ok []
  projection (e ∷ es) = record_of show e >>= λ r. projection es >>= λ rs. ok (push r rs)

  record Commits (es : List EventNode) (before after : Registry) : Type 0 where
    new : List RegistryRecord
    projected : projection es ≡ ok new
    appended : after.records ≡ before.records ++ new
    token : after.commit_token ≡ before.commit_token
    distinct : Distinct after.records

  committed-records :
      (r : RegistryRecord) (token : ℕ) (before after : Registry)
      → committed r token before ≡ ok after
      → (record before { records = before.records ++ r ∷ [] } ≡ after)
        × (has_id r.record_id before.records ≡ false)
  unfolding commit_add
  committed-records r token before after h =
      cases (not (nat_beq token before.commit_token)) (has_id r.record_id before.records) h
    where
      -- The call of `committed`, its two tests as arguments.
      outcome : Bool → Bool → Except RegistryError (Unit {0}) × Registry
      outcome a b =
          if a
          then (err unauthorized_registry_mutation, before)
          else if b
          then (err duplicate_record_id, before)
          else (ok tt, record before { records = before.records ++ r ∷ [] })

      cases :
          (a b : Bool)
          → elim (outcome a b).0 as (λ _. Replayed Registry) [
            | ok u ↦ ok (outcome a b).1
            | err e ↦ err (refused e)
          ]
            ≡ ok after
          → (record before { records = before.records ++ r ∷ [] } ≡ after) × (b ≡ false)
      cases true b h = cc
      cases false true h = cc
      cases false false h = (cc h, refl)

  projection-step :
      (e : EventNode) (es : List EventNode) (o : Option RegistryRecord) (rs : List RegistryRecord)
      → record_of show e ≡ ok o
      → projection es ≡ ok rs
      → projection (e ∷ es) ≡ ok (push o rs)
  unfolding projection
  projection-step e es o rs a b = rw (a, b, projection) refl

  idle-Commits :
      (e : EventNode) (es : List EventNode) (before after : Registry)
      → record_of show e ≡ ok none
      → Commits es before after
      → Commits (e ∷ es) before after
  idle-Commits e es before after made c = record {
    new = c.new;
    projected = projection-step e es none c.new made c.projected;
    appended = c.appended;
    token = c.token;
    distinct = c.distinct;
  }

  commit-Commits :
      (e : EventNode) (es : List EventNode) (r : RegistryRecord) (before after : Registry)
      → record_of show e ≡ ok (some r)
      → Commits es (record before { records = before.records ++ r ∷ [] }) after
      → Commits (e ∷ es) before after
  commit-Commits e es r before after made c = record {
    new = r ∷ c.new;
    projected = projection-step e es (some r) c.new made c.projected;
    appended = c.appended ∙ append_assoc before.records (r ∷ []) c.new;
    token = c.token;
    distinct = c.distinct;
  }

  apply_all-Commits :
      (es : List EventNode) (token : ℕ) (before after : Registry)
      → Distinct before.records
      → apply_all show es token before ≡ ok after
      → Commits es before after
  unfolding apply_all apply_event projection
  apply_all-Commits [] token before after distinct h = subst (Commits [] before) (same h) (record {
    new = [];
    projected = refl;
    appended = sym (append-nil before.records);
    token = refl;
    distinct = distinct;
  })
    where
      same : ◌≡◌ {A = Replayed Registry} (ok before) (ok after) → before ≡ after
      same h = cc
  apply_all-Commits (e ∷ es) token before after distinct h =
      let (next, first, h1) = ok-of-bind (apply_event show e token before) _ h in
      let (o, made, h2) = ok-of-bind (record_of show e) _ first in
      by_record o next made h2 (λ d. apply_all-Commits es token next after d h1)
    where
      same : (next : Registry) → ◌≡◌ {A = Replayed Registry} (ok before) (ok next) → next ≡ before
      same next h = cc

      by_record :
          (o : Option RegistryRecord) (next : Registry)
          → record_of show e ≡ ok o
          → elim o as (λ _. Replayed Registry) [
            | none ↦ ok before
            | some x ↦ committed x token before
          ]
            ≡ ok next
          → (Distinct next.records → Commits es next after)
          → Commits (e ∷ es) before after
      by_record none next made h rest = idle-Commits e es before after made (
          subst (λ (g : Registry). Distinct g.records → Commits es g after) (same next h) rest
            distinct)
      by_record (some r) next made h rest =
          let (is_next, new) = committed-records r token before next h in
          commit-Commits e es r before after made (
            subst (λ (g : Registry). Distinct g.records → Commits es g after) (sym is_next) rest
              (Distinct-append before.records r distinct new))

  -- When the events are replayed, the registry holds the records of the events that commit one, in the order
  -- of the events, and no record id twice.
  pub replay_ordered-projection :
      (token : ℕ) (es : List EventNode) (g : Registry)
      → replay_ordered show token es ≡ ok g
      → (projection es ≡ ok g.records) × Distinct g.records
  unfolding replay_ordered
  replay_ordered-projection token es g h =
      let c = apply_all-Commits es token (record { records = []; commit_token = token }) g tt h in
      (c.projected ∙ ap ok (sym c.appended), c.distinct)
