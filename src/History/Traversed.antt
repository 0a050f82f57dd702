-- ===== src/History/Traversed.antt =====
-- The two traversals of the checks, `_acyclic` and `_connectivity`, on a graph that was grown.
use jamp.Prelude.{
  ℕ, suc, String, ◌≡◌, refl, Bool, true, false, not, ◌&&◌, ◌||◌, none, some, List, [], ◌∷◌, ◌++◌,
  ok, length, any, nat_beq, ◌==◌, if◌then◌else◌, arith, inl, inr, Bool-cases, ap, sym, subst, ◌∙◌,
  eq_iff,
}
use mathlib.Core.List.{append_assoc, append-nil}
use text.Mathlib.TextPositions.{eq_refl}
use jamp.Prelude.Dict.{lookup, keys, has_key, contains}
use jamp.Causal.Order.{EventNode, Nodes}
use jamp.History.Event.{Digester}
use jamp.History.Dag.{genesis_id}
use jamp.History.Check.{visit_each, visit, acyclic, spread, reach, all_in, connectivity}
use jamp.History.Grown.{Linked}

-- Every key of the nodes is in the list.
abbrev Covers : Nodes → List String → Type 0
Covers nodes s = (p : String) → has_key p nodes ≡ true → contains p s ≡ true

has_key-append :
    (p k : String) (n : EventNode) (xs : Nodes)
    → has_key p (xs ++ (k, n) ∷ []) ≡ (has_key p xs || k == p)
has_key-append p k n [] = ground arith
has_key-append p k n ((j, m) ∷ xs) = ground (arith, has_key-append p k n xs)

Covers-append :
    (k : String) (n : EventNode) (xs : Nodes) (s t : List String)
    → Covers xs s
    → contains k t ≡ true
    → ((p : String) → contains p s ≡ true → contains p t ≡ true)
    → Covers (xs ++ (k, n) ∷ []) t
Covers-append k n xs s t c there more p h = elim (Bool-cases (k == p)) [
  | inl same ↦ subst (λ x. contains x t ≡ true) ((eq_iff k p).0 same) there
  | inr differ ↦ more p (c p (ground (arith, has_key-append p k n xs, h, differ)))
]

pub here-lookup :
    (xs : Nodes) (k : String) (n : EventNode) (ys : Nodes)
    → lookup k xs ≡ none
    → lookup k (xs ++ (k, n) ∷ ys) ≡ some n
here-lookup [] k n ys h = rw (eq_refl k) refl
here-lookup ((j, m) ∷ xs) k n ys h = ground (arith, here-lookup xs k n ys)

module _ (d : Digester) (full : Nodes) where
  -- A visited parent is passed over, and the node is marked.
  visit-new :
      (fuel : ℕ) (k p : String) (n : EventNode) (visited : List String)
      → lookup k full ≡ some n
      → n.parent_ids ≡ p ∷ []
      → contains p visited ≡ true
      → (k == p) ≡ false
      → contains k visited ≡ false
      → visit full (suc (suc fuel)) k (record { visiting = []; visited = visited })
        ≡ some (ok (record { visiting = []; visited = k ∷ visited }))
  unfolding visit
  visit-new fuel k p n visited here one there differ new =
      rw (here, new) (rw one (rw (differ, there) (rw (eq_refl k, new) refl)))

  visit-old :
      (fuel : ℕ) (k : String) (visited : List String)
      → contains k visited ≡ true
      → visit full (suc (suc fuel)) k (record { visiting = []; visited = visited })
        ≡ some (ok (record { visiting = []; visited = visited }))
  unfolding visit
  visit-old fuel k visited old = rw old refl

  Visited : ℕ → Nodes → List String → Type 0
  Visited fuel rest visited =
      (last : List String) × (visit_each (visit full (suc (suc fuel))) (keys rest)
          (record { visiting = []; visited = visited })
        ≡ some (ok (record { visiting = []; visited = last })))

  visit_keys :
      (fuel : ℕ) (before rest : Nodes) (visited : List String)
      → Linked d before rest
      → before ++ rest ≡ full
      → Covers before visited
      → Visited fuel rest visited
  unfolding Visited
  visit_keys fuel before [] visited l whole c = (visited, refl)
  visit_keys fuel before ((k, n) ∷ rest) visited l whole c =
      let f = l.0 in
      let whole' = append_assoc before ((k, n) ∷ []) rest ∙ whole in
      let here = subst (λ x. lookup k x ≡ some n) whole (here-lookup before k n rest f.fresh) in
      let there = c f.parent (rw (f.there) refl) in
      elim (Bool-cases (contains k visited)) [
        | inl old ↦
            let (last, e) =
              visit_keys fuel (before ++ (k, n) ∷ []) rest visited l.1 whole'
                (Covers-append k n before visited visited c old (λ p. λ h. h)) in
            (last, rw (visit-old fuel k visited old) e)
        | inr new ↦
            let (last, e) = visit_keys fuel (before ++ (k, n) ∷ []) rest (k ∷ visited) l.1 whole' (
              Covers-append k n before visited (k ∷ visited) c (rw (eq_refl k) refl)
                (λ p. λ h. later p k visited h)) in
            (
              last,
              rw
                  (visit-new fuel k f.parent n visited here f.parents there
                    (differs k f.parent f.parent_node before f.fresh f.there) new)
                  e,
            )
      ]
    where
      later : (p k : String) (s : List String) → contains p s ≡ true → contains p (k ∷ s) ≡ true
      later p k s h = ground (arith, h)

      clash : {n : EventNode} → none ≡ some n → ⊥
      clash h = cc

      differs :
          (k p : String) (n : EventNode) (xs : Nodes)
          → lookup k xs ≡ none
          → lookup p xs ≡ some n
          → (k == p) ≡ false
      differs k p n xs h t = elim (Bool-cases (k == p)) [
        | inl same ↦
            absurd (clash (sym h ∙ subst (λ x. lookup x xs ≡ some n) (sym ((eq_iff k p).0 same)) t))
        | inr differ ↦ differ
      ]

  visit-first :
      (fuel : ℕ) (g : EventNode)
      → lookup genesis_id full ≡ some g
      → g.parent_ids ≡ []
      → visit full (suc (suc fuel)) genesis_id (record { visiting = []; visited = [] })
        ≡ some (ok (record { visiting = []; visited = genesis_id ∷ [] }))
  unfolding visit
  visit-first fuel g here none_above = rw here (rw none_above refl)

module _ (d : Digester) where
  -- One round passes the mark from every parent to its child, since parents come first.
  spread-Covers :
      (before rest : Nodes) (s : List String)
      → Linked d before rest
      → Covers before s
      → Covers (before ++ rest) (spread rest s)
  spread-Covers before [] s l c = subst (λ x. Covers x s) (sym (append-nil before)) c
  spread-Covers before ((k, n) ∷ rest) s l c =
      let f = l.0 in
      let marked = c f.parent (rw (f.there) refl) in
      let next = if not (contains k s) && any (λ p. contains p s) n.parent_ids then k ∷ s else s in
      subst (λ x. Covers x (spread rest next)) (append_assoc before ((k, n) ∷ []) rest)
        (spread-Covers (before ++ (k, n) ∷ []) rest next l.1 (
          Covers-append k n before s next c (marks k f.parent n.parent_ids s f.parents marked)
            (λ p. λ h. keeps k p n.parent_ids s h)))
    where
      one_of :
          (p : String) (ps s : List String)
          → ps ≡ p ∷ []
          → contains p s ≡ true
          → any (λ q. contains q s) ps ≡ true
      one_of p ps s one there = rw one (rw there refl)

      marks :
          (k p : String) (ps s : List String)
          → ps ≡ p ∷ []
          → contains p s ≡ true
          → contains k (if not (contains k s) && any (λ q. contains q s) ps then k ∷ s else s)
            ≡ true
      marks k p ps s one there = elim (Bool-cases (contains k s)) [
        | inl old ↦ rw old old
        | inr new ↦ rw (new, one_of p ps s one there) (rw (eq_refl k) refl)
      ]

      keeps :
          (k p : String) (ps s : List String)
          → contains p s ≡ true
          → contains p (if not (contains k s) && any (λ q. contains q s) ps then k ∷ s else s)
            ≡ true
      keeps k p ps s h = elim (Bool-cases (not (contains k s) && any (λ q. contains q s) ps)) [
        | inl adds ↦ rw adds (ground (arith, h))
        | inr same ↦ rw same h
      ]

-- A round in which every entry is already marked adds nothing.
spread-covered :
    (rest : Nodes) (s : List String)
    → ((p : String) → contains p (keys rest) ≡ true → contains p s ≡ true)
    → spread rest s ≡ s
spread-covered [] s c = refl
spread-covered ((k, n) ∷ rest) s c =
    rw (c k (rw (eq_refl k) refl)) (spread-covered rest s (λ p. λ h. c p (later p k (keys rest) h)))
  where
    later : (p k : String) (s : List String) → contains p s ≡ true → contains p (k ∷ s) ≡ true
    later p k s h = ground (arith, h)

key-has_key : (p : String) (nodes : Nodes) → contains p (keys nodes) ≡ true → has_key p nodes ≡ true
key-has_key p [] h = absurd (cc h)
key-has_key p ((k, n) ∷ rest) h = elim (Bool-cases (k == p)) [
  | inl same ↦ rw same refl
  | inr differ ↦ rw differ (key-has_key p rest (rw differ at h))
]

all_in-covered :
    (s : List String) (rest : Nodes)
    → ((p : String) → contains p (keys rest) ≡ true → contains p s ≡ true)
    → all_in (keys rest) s ≡ true
all_in-covered s [] c = refl
all_in-covered s ((k, n) ∷ rest) c =
    rw (c k (rw (eq_refl k) refl)) (all_in-covered s rest (λ p. λ h. c p (later p k (keys rest) h)))
  where
    later : (p k : String) (s : List String) → contains p s ≡ true → contains p (k ∷ s) ≡ true
    later p k s h = ground (arith, h)

abbrev fixed : Nodes → List String → Bool
fixed nodes s = nat_beq (length (spread nodes s)) (length s)

reach-stop :
    (nodes : Nodes) (fuel : ℕ) (s : List String)
    → fixed nodes s ≡ true
    → reach nodes (suc fuel) s ≡ some (spread nodes s)
unfolding reach
reach-stop nodes fuel s h = rw (h, reach) refl

reach-more :
    (nodes : Nodes) (fuel : ℕ) (s : List String)
    → fixed nodes s ≡ false
    → reach nodes (suc fuel) s ≡ reach nodes fuel (spread nodes s)
unfolding reach
reach-more nodes fuel s h = rw (h, reach) refl

-- The loop ends after at most two rounds, where the second adds nothing.
two_rounds :
    (nodes : Nodes) (fuel : ℕ) (s : List String)
    → spread nodes (spread nodes s) ≡ spread nodes s
    → reach nodes (suc (suc fuel)) s ≡ some (spread nodes s)
two_rounds nodes fuel s same = elim (Bool-cases (fixed nodes s)) [
  | inl stays ↦ reach-stop nodes (suc fuel) s stays
  | inr grew ↦
      reach-more nodes (suc fuel) s grew
      ∙ reach-stop nodes fuel (spread nodes s) (rw same (nat_beq_refl (length (spread nodes s))))
      ∙ ap some same
]
  where
    nat_beq_refl : (n : ℕ) → nat_beq n n ≡ true
    nat_beq_refl n = ground arith

module _ (d : Digester) (g : EventNode) (rest : Nodes)
    (l : Linked d ((genesis_id, g) ∷ []) rest) where
  first-Covers : Covers ((genesis_id, g) ∷ []) (genesis_id ∷ [])
  first-Covers p h = ground (arith, h)

  pub grown-acyclic : g.parent_ids ≡ [] → acyclic ((genesis_id, g) ∷ rest) ≡ some (ok tt)
  unfolding acyclic Visited
  grown-acyclic none_above =
      let full = (genesis_id, g) ∷ rest in
      let fuel = length full in
      let (last, e) =
        visit_keys d full fuel ((genesis_id, g) ∷ []) rest (genesis_id ∷ []) l refl first-Covers in
      rw (visit-first d full fuel g refl none_above) (rw e refl)

  pub grown-connectivity : connectivity ((genesis_id, g) ∷ rest) ≡ some (ok tt)
  unfolding connectivity
  grown-connectivity =
      let full = (genesis_id, g) ∷ rest in
      let first = spread full (genesis_id ∷ []) in
      let all_there : Covers full first = first_round in
      let same : spread full first ≡ first =
        spread-covered full first (λ p. λ h. all_there p (key-has_key p full h)) in
      let e : reach full (suc (suc (length full))) (genesis_id ∷ []) ≡ some first =
        two_rounds full (length full) (genesis_id ∷ []) same in
      rw (e, connectivity)
        (rw (all_in-covered first full (λ p. λ h. all_there p (key-has_key p full h))) refl)
    where
      first_round :
          Covers ((genesis_id, g) ∷ rest) (spread ((genesis_id, g) ∷ rest) (genesis_id ∷ []))
      first_round = spread-Covers d ((genesis_id, g) ∷ []) rest (genesis_id ∷ []) l first-Covers
