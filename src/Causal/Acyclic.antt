-- ===== src/Causal/Acyclic.antt =====
-- Which events the loop of `sort_causal_order` reaches, where parents can be ranked below their children.
use jamp.Prelude.{
  ℕ, zero, suc, ◌≤◌, ◌<◌, String, ◌≡◌, refl, true, false, some, List, [], ◌∷◌, ◌++◌, length, ◌==◌,
  if◌then◌else◌, arith, eq_iff, inl, inr, Bool-cases, ap, ◌∙◌, sym, subst,
}
use text.Mathlib.TextPositions.{eq_refl}
use jamp.Prelude.Int.{pos}
use jamp.Prelude.Dict.{lookup, keys, contains}
use jamp.Causal.Order.{EventNode, Nodes}
use jamp.Causal.Count.{occurs, open_count}
use jamp.Causal.Nodes.{Indexed}
use jamp.Causal.Invariant.{Known}
use jamp.Causal.Topological.{Topo}
use jamp.Causal.Sorted.{Done}

-- A list without one member, which is there.
remove : String → List String → List String
remove x [] = []
remove x (y ∷ ys) = let rest = remove x ys in if y == x then ys else y ∷ rest

length-remove :
    (x : String) (ys : List String) → 0 < occurs x ys → suc (length (remove x ys)) ≡ length ys
unfolding remove
length-remove x [] h = absurd (omega (arith, h))
length-remove x (y ∷ ys) h = elim (Bool-cases (y == x)) [
  | inl same ↦ rw same refl
  | inr differ ↦ rw differ (ap suc (length-remove x ys (rw differ at h)))
]

occurs-remove :
    (x z : String) (ys : List String) → (x == z) ≡ false → occurs z (remove x ys) ≡ occurs z ys
unfolding remove
occurs-remove x z [] h = refl
occurs-remove x z (y ∷ ys) h = elim (Bool-cases (y == x)) [
  | inl same ↦ rw (same, subst (λ k. (k == z) ≡ false) (sym ((eq_iff y x).0 same)) h) refl
  | inr differ ↦ rw (differ, occurs-remove x z ys h) refl
]

-- A list without repetitions whose members are all in another is no longer than that.
pub length-le :
    (xs ys : List String)
    → ((x : String) → occurs x xs ≤ 1)
    → ((x : String) → 0 < occurs x xs → 0 < occurs x ys)
    → length xs ≤ length ys
length-le [] ys once sub = omega arith
length-le (x ∷ xs) ys once sub =
    let here : occurs x (x ∷ xs) ≡ suc (occurs x xs) = rw (eq_refl x) refl in
    omega (
      arith,
      length-remove x ys (sub x (omega (arith, here))),
      length-le xs (remove x ys) (λ z. fewer z (once z)) (λ z. λ h. within z h),
    )
  where
    fewer : (z : String) → occurs z (x ∷ xs) ≤ 1 → occurs z xs ≤ 1
    fewer z h = ground arith

    counted : (z : String) → (x == z) ≡ true → occurs z (x ∷ xs) ≡ suc (occurs z xs)
    counted z same = rw same refl

    again : (z : String) → (x == z) ≡ true → occurs z xs ≡ 0
    again z same = omega (arith, once z, counted z same)

    differs : (z : String) → 0 < occurs z xs → (x == z) ≡ false
    differs z h = elim (Bool-cases (x == z)) [
      | inl same ↦ absurd (omega (arith, h, again z same))
      | inr differ ↦ differ
    ]

    grows : (z : String) → 0 < occurs z xs → 0 < occurs z (x ∷ xs)
    grows z h = ground arith

    within : (z : String) → 0 < occurs z xs → 0 < occurs z (remove x ys)
    within z h = omega (arith, occurs-remove x z ys (differs z h), sub z (grows z h))

all_closed :
    (ps done : List String)
    → ((p : String) → contains p ps ≡ true → contains p done ≡ true)
    → open_count ps done ≡ 0
all_closed [] done h = refl
all_closed (p ∷ ps) done h =
    rw (h p (here p ps)) (all_closed ps done (λ q. λ k. h q (later q p ps k)))
  where
    here : (p : String) (ps : List String) → contains p (p ∷ ps) ≡ true
    here p ps = rw (eq_refl p) refl

    later : (q p : String) (ps : List String) → contains q ps ≡ true → contains q (p ∷ ps) ≡ true
    later q p ps k = ground arith

pub occurs-contains : (x : String) (xs : List String) → 0 < occurs x xs → contains x xs ≡ true
occurs-contains x [] h = absurd (omega (arith, h))
occurs-contains x (y ∷ ys) h = ground (arith, occurs-contains x ys)

pub contains-occurs : (x : String) (xs : List String) → contains x xs ≡ true → 0 < occurs x xs
contains-occurs x [] h = absurd (cc h)
contains-occurs x (y ∷ ys) h = ground (arith, contains-occurs x ys)

-- The parents of an event are known, and below it.
abbrev pub RankedNodes : (String → ℕ) → Nodes → Type 0
RankedNodes rank nodes =
    (c : String) (e : EventNode)
    → lookup c nodes ≡ some e
    → (p : String) → contains p e.parent_ids ≡ true
    → Known nodes p × (rank p < rank c)

module _ (nodes : Nodes) (rank : String → ℕ) (ranked : RankedNodes rank nodes) (r : List String)
    (final : Done nodes r) where
  pub covered :
      (bound : ℕ) (c : String) (e : EventNode)
      → lookup c nodes ≡ some e
      → rank c < bound
      → 0 < occurs c r
  covered zero c e h l = absurd (omega (arith, l))
  covered (suc bound) c e h l =
      let i = final.1 in
      let closed = all_closed e.parent_ids r (λ p. λ k.
        let (known, below) = ranked c e h p k in
        occurs-contains p r (covered bound p known.0 known.1 (omega (arith, l, below)))) in
      omega (arith, i.complete c e h (i.degree c e h ∙ ap pos (omega (arith, closed))))

pub Topo-Known :
    (nodes : Nodes) (pre xs : List String) (x : String)
    → Topo nodes pre xs
    → 0 < occurs x xs
    → Known nodes x
Topo-Known nodes pre [] x t h = absurd (omega (arith, h))
Topo-Known nodes pre (y ∷ ys) x t h = elim (Bool-cases (y == x)) [
  | inl same ↦ subst (Known nodes) ((eq_iff y x).0 same) t.0
  | inr differ ↦ Topo-Known nodes (pre ++ y ∷ []) ys x t.2 (rw differ at h)
]

pub Known-key : (nodes : Nodes) (x : String) → Known nodes x → contains x (keys nodes) ≡ true
Known-key [] x (e, h) = absurd (cc h)
Known-key ((k, n) ∷ rest) x (e, h) = elim (Bool-cases (k == x)) [
  | inl same ↦ rw same refl
  | inr differ ↦ rw differ (Known-key rest x (e, rw differ at h))
]

absent-occurs : (x : String) (xs : List String) → contains x xs ≡ false → occurs x xs ≡ 0
absent-occurs x [] h = refl
absent-occurs x (y ∷ ys) h = ground (arith, absent-occurs x ys)

pub keys_once : (nodes : Nodes) (x : String) → Indexed nodes → occurs x (keys nodes) ≤ 1
keys_once [] x i = omega arith
keys_once ((k, e) ∷ rest) x i = elim (Bool-cases (k == x)) [
  | inl same ↦ rw same (
      omega (
        arith,
        absent-occurs x (keys rest)
            (subst (λ y. contains y (keys rest) ≡ false) ((eq_iff k x).0 same) i.1),
      ))
  | inr differ ↦ rw differ (keys_once rest x i.2)
]

pub length-keys : (nodes : Nodes) → length (keys nodes) ≡ length nodes
length-keys [] = refl
length-keys ((k, e) ∷ rest) = ap suc (length-keys rest)
