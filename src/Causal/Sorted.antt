-- ===== src/Causal/Sorted.antt =====
-- The events that `sort_causal_order` returns.
use jamp.Prelude.{
  ℕ, zero, suc, ◌≤◌, ◌<◌, String, ◌≡◌, refl, Bool, true, false, ◌||◌, some, List, [], ◌∷◌, ◌++◌,
  length, ◌==◌, arith, eq_iff, inl, inr, Bool-cases, ap, ◌∙◌, sym, subst,
}
use jamp.Prelude.Int.{ℤ, pos, beq_ℤ}
use jamp.Prelude.Dict.{Dict, lookup, keys, contains}
use jamp.Prelude.Sort.{leb_text, sort}
use jamp.Causal.Order.{
  EventNode, Nodes, Entry, Work, indegree_of, indegrees, ready_at, release, children, loop,
}
use jamp.Causal.Count.{occurs, ids, occurs-sort}
use jamp.Causal.Nodes.{Indexed, absent-children}
use jamp.Causal.Invariant.{Known, Inv, release-Inv}
use jamp.Causal.Topological.{Topo, Topo-append, head-Known, parents_done, popped}

pub Known-contains : (x : String) (nodes : Nodes) → contains x (keys nodes) ≡ true → Known nodes x
Known-contains x [] h = absurd (cc h)
Known-contains x ((k, e) ∷ rest) h = elim (Bool-cases (k == x)) [
  | inl same ↦ (e, rw same refl)
  | inr differ ↦ let (f, there) = Known-contains x rest (rw differ at h) in (f, rw differ there)
]

children-Known :
    (x id : String) (nodes : Nodes)
    → Indexed nodes
    → 0 < occurs x (sort leb_text (children id nodes))
    → Known nodes x
children-Known x id nodes i h = elim (Bool-cases (contains x (keys nodes))) [
  | inl there ↦ Known-contains x nodes there
  | inr missing ↦ absurd (
      omega (
        arith,
        h,
        occurs-sort leb_text x (children id nodes),
        absent-children x id nodes i missing,
      ))
]

-- The invariant at the end of the loop, where nothing is ready.
abbrev pub Done : Nodes → List String → Type 0
Done nodes r = (d : Dict ℤ) × Inv nodes (record { indegree = d; ready = [] }) r []

module _ (nodes : Nodes) (indexed : Indexed nodes) where
  pub loop-Topo :
      (fuel : ℕ) (d : Dict ℤ) (ready : List Entry) (done r : List String)
      → Inv nodes (record { indegree = d; ready = ready }) done []
      → Topo nodes [] done
      → loop nodes fuel (record { indegree = d; ready = ready }) done ≡ some r
      → Topo nodes [] r × Done nodes r
  unfolding loop
  loop-Topo zero d ready done r i t h = absurd (cc h)
  loop-Topo (suc fuel) d [] done r i t h =
      let same : done ≡ r = cc h in subst (λ l. Topo nodes [] l × Done nodes l) same (t, (d, i))
  loop-Topo (suc fuel) d ((g, id) ∷ rest) done r i t h =
      let cs = sort leb_text (children id nodes) in
      let w : Work = record { indegree = d; ready = rest } in
      let w1 = release nodes cs w in
      loop-Topo fuel w1.indegree w1.ready (done ++ id ∷ []) r
        (release-Inv nodes (done ++ id ∷ []) cs w (λ x. children-Known x id nodes indexed)
          (popped nodes indexed d g id rest done i))
        (Topo-append nodes [] done id t (head-Known nodes indexed d g id rest done i)
          (parents_done nodes indexed d g id rest done i))
        h

pub indegrees-lookup :
    (c : String) (e : EventNode) (nodes : Nodes)
    → lookup c nodes ≡ some e
    → indegree_of (indegrees nodes) c ≡ pos (length e.parent_ids)
indegrees-lookup c e [] h = absurd (cc h)
indegrees-lookup c e ((k, n) ∷ rest) h = elim (Bool-cases (k == c)) [
  | inl same ↦
      let is_e : n ≡ e = cc (rw same at h) in
      rw same (ap (λ (q : EventNode). pos (length q.parent_ids)) is_e)
  | inr differ ↦ rw differ (indegrees-lookup c e rest (rw differ at h))
]

zero-of : (v : ℤ) → beq_ℤ v (pos 0) ≡ true → v ≡ pos 0
zero-of v h = ground arith

-- Who is ready at the start: events of the list, each once, with no parent.
abbrev pub ReadyAtStart : Nodes → Dict ℤ → Nodes → String → Type 0
ReadyAtStart nodes deg rest x =
    (occurs x (ids (ready_at nodes deg rest)) ≤ 1)
    × (0 < occurs x (ids (ready_at nodes deg rest))
        → (contains x (keys rest) ≡ true) × (indegree_of deg x ≡ pos 0))

pub ready_at-start :
    (nodes : Nodes) (deg : Dict ℤ) (rest : Nodes) (x : String)
    → Indexed rest
    → ReadyAtStart nodes deg rest x
ready_at-start nodes deg [] x i = (omega arith, λ h. absurd (omega (arith, h)))
ready_at-start nodes deg ((k, e) ∷ rest) x i =
    let (once, facts) = ready_at-start nodes deg rest x i.2 in
    elim (Bool-cases (beq_ℤ (indegree_of deg k) (pos 0))) [
      | inl at_zero ↦ elim (Bool-cases (k == x)) [
        | inl same ↦
            let is_x = (eq_iff k x).0 same in
            rw (at_zero, same)
              (
                omega (arith, fresh is_x (occurs x (ids (ready_at nodes deg rest))) facts),
                λ h. (
                  refl,
                  zero-of (indegree_of deg x)
                      (subst (λ y. beq_ℤ (indegree_of deg y) (pos 0) ≡ true) is_x at_zero),
                ),
              )
        | inr differ ↦ rw (at_zero, differ) (once, facts)
      ]
      | inr above ↦
          rw above
            (once, λ h. let (c, z) = facts h in (weaken (k == x) (contains x (keys rest)) c, z))
    ]
  where
    weaken : (a b : Bool) → b ≡ true → (a || b) ≡ true
    weaken a b h = ground arith

    fresh :
        k ≡ x
        → (n : ℕ) → (0 < n → (contains x (keys rest) ≡ true) × (indegree_of deg x ≡ pos 0))
        → n ≡ 0
    fresh is_x zero f = refl
    fresh is_x (suc n) f =
        absurd (cc (sym (f (omega arith)).0 ∙ subst (λ y. contains y (keys rest) ≡ false) is_x i.1))

-- An event without parents is ready at the start.
pub ready_at_complete :
    (nodes : Nodes) (deg : Dict ℤ) (rest : Nodes) (x : String) (e : EventNode)
    → lookup x rest ≡ some e
    → indegree_of deg x ≡ pos 0
    → 0 < occurs x (ids (ready_at nodes deg rest))
ready_at_complete nodes deg [] x e h z = absurd (cc h)
ready_at_complete nodes deg ((k, n) ∷ rest) x e h z = elim (Bool-cases (k == x)) [
  | inl same ↦
      let at_zero =
        subst (λ y. beq_ℤ (indegree_of deg y) (pos 0) ≡ true) (sym ((eq_iff k x).0 same))
          (subst (λ v. beq_ℤ v (pos 0) ≡ true) (sym z) refl) in
      rw (at_zero, same) (omega arith)
  | inr differ ↦ elim (Bool-cases (beq_ℤ (indegree_of deg k) (pos 0))) [
    | inl at_zero ↦ rw (at_zero, differ) (ready_at_complete nodes deg rest x e (rw differ at h) z)
    | inr above ↦ rw above (ready_at_complete nodes deg rest x e (rw differ at h) z)
  ]
]
