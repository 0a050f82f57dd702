-- ===== src/Causal/Ancestors.antt =====
-- The clocks of events that stand behind their parents.
use jamp.Prelude.{
  ℕ, ◌+◌, ◌≤◌, String, ◌≡◌, refl, Bool, true, false, some, List, [], ◌∷◌, ◌++◌, All, ok, ◌==◌,
  if◌then◌else◌, arith, eq_iff, inl, inr, Bool-cases, ap, ◌∙◌, sym, subst,
}
use jamp.Prelude.Text.{nonempty}
use jamp.Prelude.Dict.{lookup, insert, contains, lookup-insert}
use jamp.Causal.Clock.{VectorClock, value, empty, before}
use text.Mathlib.TextPositions.{eq_refl}
use jamp.Causal.Relation.{Relates}
use jamp.Causal.Laws.{Valid, maximum_at, merge-value, tick-value}
use jamp.Causal.Order.{EventNode, sort_causal_order}
use jamp.Causal.Extension.{ParentsFirst, sort_causal_order-IsExtension}
use jamp.Causal.Clocks.{
  Clocks, parent_clocks, base, clock_event, clock_events, listed, compute_vector_clocks,
}

-- Every id of the list has a valid clock.
abbrev pub Covers : Clocks → List String → Type 0
Covers clocks ids =
    (p : String) → contains p ids ≡ true → (c : VectorClock) × (lookup p clocks ≡ some c) × Valid c

parent_clocks-ok :
    (clocks : Clocks) (ps : List String)
    → Covers clocks ps
    → (cs : List VectorClock) × (parent_clocks clocks ps ≡ ok cs)
      × All Valid cs
      × ((p k : String) (c : VectorClock)
          → contains p ps ≡ true
          → lookup p clocks ≡ some c
          → value c k ≤ maximum_at k cs)
unfolding parent_clocks
parent_clocks-ok clocks [] v = ([], refl, tt, λ p. λ k. λ c. λ h. λ _. absurd (cc h))
parent_clocks-ok clocks (q ∷ qs) v =
    let (c, there, valid) = v q (here q qs) in
    let (cs, e, vs, below) = parent_clocks-ok clocks qs (λ p. λ h. v p (later p q qs h)) in
    (
      c ∷ cs,
      rw (there, e, parent_clocks) refl,
      (valid, vs),
      λ p. λ k. λ d. λ h. λ at_p. elim (Bool-cases (q == p)) [
        | inl same ↦
            let is_d : c ≡ d = cc (
              sym there ∙ subst (λ y. lookup y clocks ≡ some d) (sym ((eq_iff q p).0 same)) at_p) in
            omega (arith, ap (λ (x : VectorClock). value x k) is_d)
        | inr differ ↦ omega (arith, below p k d (rw differ at h) at_p)
      ],
    )
  where
    here : (q : String) (qs : List String) → contains q (q ∷ qs) ≡ true
    here q qs = rw (eq_refl q) refl

    later : (p q : String) (qs : List String) → contains p qs ≡ true → contains p (q ∷ qs) ≡ true
    later p q qs h = ground arith

empty-Valid : Valid empty
empty-Valid = record { full = refl; distinct = refl }

base-ok :
    (cs : List VectorClock)
    → All Valid cs
    → (b : VectorClock) × (base cs ≡ ok b) × Valid b × ((k : String) → value b k ≡ maximum_at k cs)
base-ok [] v = (empty, refl, empty-Valid, λ k. refl)
base-ok (c ∷ cs) v =
    let (m, e, valid, values) = merge-value empty (c ∷ cs) empty-Valid v in
    (m, rw e refl, valid, λ k. omega (arith, values k))

-- An event whose parents all have clocks, and whose id is not empty, gets a clock that is above the
-- clock of each of its parents, in the sense in which `relation` says BEFORE.
pub clock_event-Relates :
    (clocks : Clocks) (e : EventNode)
    → Covers clocks e.parent_ids
    → nonempty e.event_id ≡ true
    → (c : VectorClock) × (clock_event clocks e ≡ ok (insert e.event_id c clocks))
      × Valid c
      × ((p : String) (d : VectorClock)
          → contains p e.parent_ids ≡ true
          → lookup p clocks ≡ some d
          → Relates d c before)
unfolding clock_event
clock_event-Relates clocks e v n =
    let (cs, ec, vs, below) = parent_clocks-ok clocks e.parent_ids v in
    let (b, eb, vb, values) = base-ok cs vs in
    let (c, et, valid, ticked) = tick-value b e.event_id vb n in
    (
      c,
      rw (ec, eb, et) refl,
      valid,
      λ p. λ d. λ h. λ at_p. (
        λ k.
            at_most (e.event_id == k) (value d k) (value b k) (value c k)
              (omega (arith, below p k d h at_p, values k)) (ticked k),
        (
          e.event_id,
          omega (
            arith,
            below p e.event_id d h at_p,
            values e.event_id,
            own e.event_id (value b e.event_id) (value c e.event_id) (ticked e.event_id),
          ),
        ),
      ),
    )
  where
    at_most : (same : Bool) (d b c : ℕ) → d ≤ b → c ≡ (if same then b + 1 else b) → d ≤ c
    at_most true d b c l h = omega arith
    at_most false d b c l h = omega arith

    own : (i : String) (b c : ℕ) → c ≡ (if i == i then b + 1 else b) → c ≡ b + 1
    own i b c h = h ∙ rw (eq_refl i) refl

abbrev pub FullIds : List EventNode → Type 0
FullIds es = All (λ (e : EventNode). nonempty e.event_id ≡ true) es

contains-last :
    (p id : String) (pre : List String)
    → contains p (pre ++ id ∷ []) ≡ true
    → (id == p) ≡ false
    → contains p pre ≡ true
contains-last p id [] h differ = absurd (cc (rw differ at h))
contains-last p id (q ∷ pre) h differ = ground (arith, contains-last p id pre)

Covers-insert :
    (clocks : Clocks) (pre : List String) (id : String) (c : VectorClock)
    → Covers clocks pre
    → Valid c
    → Covers (insert id c clocks) (pre ++ id ∷ [])
Covers-insert clocks pre id c v valid p h = elim (Bool-cases (id == p)) [
  | inl same ↦ (c, lookup-insert id p c clocks ∙ rw same refl, valid)
  | inr differ ↦
      let (d, at_p, valid_d) = v p (contains-last p id pre h differ) in
      (d, lookup-insert id p c clocks ∙ rw differ at_p, valid_d)
]

clock_events-ok :
    (clocks : Clocks) (pre : List String) (es : List EventNode)
    → Covers clocks pre
    → ParentsFirst pre es
    → FullIds es
    → (out : Clocks) × (clock_events clocks es ≡ ok out)
unfolding clock_events
clock_events-ok clocks pre [] v f n = (clocks, refl)
clock_events-ok clocks pre (e ∷ es) v f n =
    let (c, made, valid, _) = clock_event-Relates clocks e (λ p. λ h. v p (f.0 p h)) n.0 in
    let (out, all_made) =
      clock_events-ok (insert e.event_id c clocks) (pre ++ e.event_id ∷ []) es
        (Covers-insert clocks pre e.event_id c v valid) f.1 n.1 in
    (out, rw (made, clock_events) all_made)

-- The vector clocks of events that can be sorted, and whose ids are not empty, are always computed.
pub compute_vector_clocks-succeeds :
    (events order : List EventNode)
    → sort_causal_order events ≡ some (ok order)
    → FullIds order
    → (clocks : Clocks) × (compute_vector_clocks events ≡ some (ok (listed clocks)))
unfolding compute_vector_clocks
compute_vector_clocks-succeeds events order s n =
    let first = (sort_causal_order-IsExtension events order s).parents_first in
    let (clocks, e) = clock_events-ok [] [] order (λ p. λ h. absurd (cc h)) first n in
    (clocks, rw (s, e, compute_vector_clocks) refl)
