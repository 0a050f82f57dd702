-- ===== src/History/Reached.antt =====
-- The loop of `_connectivity` ends, and so does `validate`, on every dict of events.
use jamp.Prelude.{
  ℕ, zero, suc, ◌+◌, ◌≤◌, ◌<◌, String, ◌≡◌, refl, Bool, true, false, not, ◌&&◌, Option, some, List,
  [], ◌∷◌, ok, err, ◌>>◌, require, length, any, nat_beq, arith, inl, inr, Bool-cases,
}
use text.Mathlib.TextPositions.{eq_refl}
use jamp.Prelude.Dict.{keys, contains}
use jamp.Causal.Order.{EventNode, Nodes}
use jamp.Causal.Count.{occurs}
use jamp.Causal.Acyclic.{length-le, length-keys}
use jamp.History.Event.{Digester, disconnected}
use jamp.History.Dag.{genesis_id}
use jamp.History.Check.{
  Done, acyclic, spread, reach, all_in, connectivity, unique_ids, genesis,
  parents_exist_and_precede, parent_order, hash_chain, and_then, validate,
}
use jamp.History.Ends.{Within, cons-Within, acyclic-ends}

abbrev adds : String → EventNode → List String → Bool
adds k n s = not (contains k s) && any (λ p. contains p s) n.parent_ids

length-spread : (rest : Nodes) (s : List String) → length s ≤ length (spread rest s)
length-spread [] s = omega arith
length-spread ((k, n) ∷ rest) s = elim (Bool-cases (adds k n s)) [
  | inl grows ↦ rw grows (omega (arith, length-spread rest (k ∷ s)))
  | inr stays ↦ rw stays (length-spread rest s)
]

spread-Within :
    (ks : List String) (rest : Nodes) (s : List String)
    → ((x : String) → 0 < occurs x (keys rest) → 0 < occurs x ks)
    → Within ks s
    → Within ks (spread rest s)
spread-Within ks [] s sub w = w
spread-Within ks ((k, n) ∷ rest) s sub w = elim (Bool-cases (adds k n s)) [
  | inl grows ↦ rw grows (
      spread-Within ks rest (k ∷ s) (λ x. λ h. sub x (later x h))
        (cons-Within ks s k w (new (contains k s) (any (λ p. contains p s) n.parent_ids) grows)
          (sub k here)))
  | inr stays ↦ rw stays (spread-Within ks rest s (λ x. λ h. sub x (later x h)) w)
]
  where
    later : (x : String) → 0 < occurs x (keys rest) → 0 < occurs x (k ∷ keys rest)
    later x h = ground arith

    here : 0 < occurs k (k ∷ keys rest)
    here = rw (eq_refl k) (omega arith)

    new : (a b : Bool) → (not a && b) ≡ true → a ≡ false
    new true b h = cc
    new false b h = refl

module _ (nodes : Nodes) where
  all_ids : List String
  all_ids = genesis_id ∷ keys nodes

  reach-ends :
      (fuel : ℕ) (s : List String)
      → Within all_ids s
      → suc (length nodes) < fuel + length s
      → (r : List String) × (reach nodes fuel s ≡ some r)
  unfolding reach all_ids
  reach-ends zero s w h = absurd (omega (arith, h, length-le s all_ids w.0 w.1, length-keys nodes))
  reach-ends (suc fuel) s w h = elim (Bool-cases (nat_beq (length (spread nodes s)) (length s))) [
    | inl fixed ↦ (spread nodes s, rw (fixed, reach) refl)
    | inr grew ↦
        let (r, e) = reach-ends fuel (spread nodes s) (spread-Within all_ids nodes s in_ids w) (
          omega
            (arith, h, longer (length s) (length (spread nodes s)) (length-spread nodes s) grew)) in
        (r, rw (grew, reach) e)
  ]
    where
      in_ids : (x : String) → 0 < occurs x (keys nodes) → 0 < occurs x (genesis_id ∷ keys nodes)
      in_ids x h = ground arith

      longer : (m n : ℕ) → m ≤ n → nat_beq n m ≡ false → m < n
      longer m n h k = ground arith

  connectivity-ends : (r : Done) × (connectivity nodes ≡ some r)
  unfolding connectivity all_ids
  connectivity-ends =
      let (s, e) = reach-ends (suc (suc (length nodes))) (genesis_id ∷ []) start (omega arith) in
      (require (all_in (keys nodes) s) disconnected, rw (e, connectivity) refl)
    where
      start : Within (genesis_id ∷ keys nodes) (genesis_id ∷ [])
      start = ((λ x. ground arith), (λ x. λ h. ground arith))

-- `validate` returns or raises on every dict of events: the search for cycles and the loop over the reachable
-- events end within their fuel.
pub validate-ends : (d : Digester) (nodes : Nodes) → (r : Done) × (validate d nodes ≡ some r)
unfolding validate
validate-ends d nodes =
    let (a, x) = acyclic-ends nodes in
    let (b, y) = connectivity-ends nodes in
    let first =
      unique_ids nodes
      >> genesis d nodes
      >> parents_exist_and_precede nodes
      >> parent_order nodes in
    joined first a b (hash_chain d nodes) (acyclic nodes) (connectivity nodes) x y
  where
    joined :
        (p a b q : Done) (m n : Option Done)
        → m ≡ some a
        → n ≡ some b
        → (r : Done) × (and_then (some p) (and_then m (and_then n (some q))) ≡ some r)
    joined (err e) a b q m n x y = (err e, refl)
    joined (ok u) (err e) b q m n x y = (err e, rw x refl)
    joined (ok u) (ok v) (err e) q m n x y = (err e, rw (x, y) refl)
    joined (ok u) (ok v) (ok w) q m n x y = (q, rw (x, y) refl)
