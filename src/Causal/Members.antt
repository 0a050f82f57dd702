-- ===== src/Causal/Members.antt =====
-- A linear extension has the ids of the given events, no more and no fewer.
use jamp.Prelude.{
  suc, ◌≤◌, ◌<◌, String, ◌≡◌, refl, true, false, some, List, [], ◌∷◌, All, length, ◌==◌, arith,
  eq_iff, inl, inr, Bool-cases, ap, subst,
}
use jamp.Prelude.Dict.{lookup, contains}
use jamp.Causal.Order.{EventNode}
use jamp.Causal.Count.{occurs}
use jamp.Causal.Nodes.{by_id}
use jamp.Causal.Acyclic.{length-le, occurs-contains, contains-occurs}
use jamp.Causal.Extension.{event_ids, Given, IsExtension}

length-event_ids : (es : List EventNode) → length (event_ids es) ≡ length es
length-event_ids [] = refl
length-event_ids (e ∷ es) = ap suc (length-event_ids es)

by_id-contains :
    (x : String) (e : EventNode) (es : List EventNode)
    → lookup x (by_id es) ≡ some e
    → contains x (event_ids es) ≡ true
by_id-contains x e [] h = absurd (cc h)
by_id-contains x e (f ∷ es) h = elim (Bool-cases (f.event_id == x)) [
  | inl same ↦ rw same refl
  | inr differ ↦ rw differ (by_id-contains x e es (rw differ at h))
]

given-contains :
    (events order : List EventNode) (x : String)
    → All (Given events) order
    → contains x (event_ids order) ≡ true
    → contains x (event_ids events) ≡ true
given-contains events [] x g h = absurd (cc h)
given-contains events (e ∷ es) x g h = elim (Bool-cases (e.event_id == x)) [
  | inl same ↦
      subst (λ y. contains y (event_ids events) ≡ true) ((eq_iff e.event_id x).0 same)
        (by_id-contains e.event_id e events g.0)
  | inr differ ↦ given-contains events es x g.1 (rw differ at h)
]

module _ (events order : List EventNode) (extension : IsExtension events order) where
  pub order-events :
      (x : String) → contains x (event_ids order) ≡ true → contains x (event_ids events) ≡ true
  order-events x h = given-contains events order x extension.given h

  -- An id that were missing could be put in front of the order, which would be too long then.
  pub events-order :
      (x : String) → contains x (event_ids events) ≡ true → contains x (event_ids order) ≡ true
  events-order x h = elim (Bool-cases (contains x (event_ids order))) [
    | inl there ↦ there
    | inr missing ↦ absurd (
        omega (
          arith,
          length-le (x ∷ event_ids order) (event_ids events) (once missing) within,
          length-event_ids order,
          length-event_ids events,
          extension.complete,
        ))
  ]
    where
      none_of : (y : String) → contains y (event_ids order) ≡ false → occurs y (event_ids order) ≡ 0
      none_of y h = ground (arith, h, occurs-contains y (event_ids order))

      once :
          contains x (event_ids order) ≡ false → (y : String) → occurs y (x ∷ event_ids order) ≤ 1
      once missing y = elim (Bool-cases (x == y)) [
        | inl same ↦ rw same (
            omega (
              arith,
              none_of y
                  (subst (λ z. contains z (event_ids order) ≡ false) ((eq_iff x y).0 same) missing),
            ))
        | inr differ ↦ rw differ (extension.once y)
      ]

      within : (y : String) → 0 < occurs y (x ∷ event_ids order) → 0 < occurs y (event_ids events)
      within y k = elim (Bool-cases (x == y)) [
        | inl same ↦
            contains-occurs y (event_ids events)
              (subst (λ z. contains z (event_ids events) ≡ true) ((eq_iff x y).0 same) h)
        | inr differ ↦
            contains-occurs y (event_ids events)
              (order-events y (occurs-contains y (event_ids order) (rw differ at k)))
      ]
