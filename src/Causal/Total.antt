-- ===== src/Causal/Total.antt =====
-- The end of the loop of `sort_causal_order`.
use jamp.Prelude.{
  ℕ, zero, suc, ◌+◌, ◌<◌, String, ◌≡◌, refl, Bool, true, false, some, List, [], ◌∷◌, ◌++◌, err,
  Except-cases, length, arith, inl, inr, Bool-cases, ap, ◌∙◌,
}
use jamp.Prelude.Int.{ℤ, pos, negsuc, ◌+ℤ◌, beq_ℤ}
use jamp.Prelude.Dict.{Dict, insert}
use jamp.Prelude.Sort.{leb_text, insert_sorted, sort}
use jamp.Causal.Order.{
  EventNode, Nodes, Ordered, Entry, leb_entry, Work, indegree_of, is_positive, waiting, fuel_of,
  lower, release, loop, start, children, digest_of, sort_nodes, sort_causal_order, prepare,
  finished,
}

abbrev one_if : Bool → ℕ
one_if true = 1
one_if false = 0

waiting-insert :
    (k : String) (n : ℤ) (d : Dict ℤ)
    → waiting (insert k n d) + one_if (is_positive (indegree_of d k))
      ≡ waiting d + one_if (is_positive n)
waiting-insert k n [] = ground arith
waiting-insert k n (e ∷ d) = ground (arith, waiting-insert k n d)

length-insert_sorted :
    (x : Entry) (xs : List Entry) → length (insert_sorted leb_entry x xs) ≡ suc (length xs)
unfolding insert_sorted
length-insert_sorted x [] = refl
length-insert_sorted x (y ∷ ys) = elim (Bool-cases (leb_entry x y)) [
  | inl before ↦ rw before refl
  | inr behind ↦ rw (behind, length-insert_sorted x ys) refl
]

-- An indegree that falls to zero was positive.
lowered :
    (v : ℤ)
    → one_if (is_positive v)
      ≡ one_if (is_positive (v +ℤ negsuc 0)) + one_if (beq_ℤ (v +ℤ negsuc 0) (pos 0))
unfolding ◌+ℤ◌
lowered v = ground arith

lower-fuel : (nodes : Nodes) (c : String) (w : Work) → fuel_of (lower nodes c w) ≡ fuel_of w
unfolding lower
lower-fuel nodes c w =
    let n = indegree_of w.indegree c +ℤ negsuc 0 in
    elim (Bool-cases (beq_ℤ n (pos 0))) [
      | inl at_zero ↦ rw at_zero (
          omega (
            arith,
            waiting-insert c n w.indegree,
            lowered (indegree_of w.indegree c),
            length-insert_sorted (digest_of nodes c, c) w.ready,
            ap one_if at_zero,
          ))
      | inr above ↦ rw above (
          omega (
            arith,
            waiting-insert c n w.indegree,
            lowered (indegree_of w.indegree c),
            ap one_if above,
          ))
    ]

release-fuel :
    (nodes : Nodes) (cs : List String) (w : Work) → fuel_of (release nodes cs w) ≡ fuel_of w
unfolding release
release-fuel nodes [] w = refl
release-fuel nodes (c ∷ cs) w = release-fuel nodes cs (lower nodes c w) ∙ lower-fuel nodes c w

pub loop-ends :
    (nodes : Nodes) (fuel : ℕ) (d : Dict ℤ) (ready : List Entry) (ordered : List String)
    → length ready + waiting d < fuel
    → (r : List String) × (loop nodes fuel (record { indegree = d; ready = ready }) ordered
        ≡ some r)
unfolding loop
loop-ends nodes zero d ready ordered h = absurd (omega arith)
loop-ends nodes (suc fuel) d [] ordered h = (ordered, refl)
loop-ends nodes (suc fuel) d ((g, id) ∷ rest) ordered h =
    let cs = sort leb_text (children id nodes) in
    let w = release nodes cs (record { indegree = d; ready = rest }) in
    loop-ends nodes fuel w.indegree w.ready (ordered ++ id ∷ [])
      (omega (arith, release-fuel nodes cs (record { indegree = d; ready = rest })))

sort_nodes-ends :
    (nodes : Nodes) → (ordered : List String) × (sort_nodes nodes ≡ some (finished nodes ordered))
unfolding sort_nodes
sort_nodes-ends nodes =
    let w = start nodes in
    let (ordered, e) = loop-ends nodes (suc (fuel_of w)) w.indegree w.ready [] (omega arith) in
    (ordered, rw (e, sort_nodes) refl)

-- The sort ends on any list of events, in order or not, with a cycle or without: its fuel is enough.
pub sort_causal_order-ends :
    (events : List EventNode) → (r : Ordered (List EventNode)) × (sort_causal_order events ≡ some r)
unfolding sort_causal_order
sort_causal_order-ends events = elim (Except-cases (prepare events)) [
  | inl (nodes, e) ↦
      let (ordered, s) = sort_nodes-ends nodes in
      (finished nodes ordered, rw (e, sort_causal_order) s)
  | inr (e, r) ↦ (err e, rw (r, sort_causal_order) refl)
]
