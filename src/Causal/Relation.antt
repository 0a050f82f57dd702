-- ===== src/Causal/Relation.antt =====
-- The relation of two vector clocks against their values.
use jamp.Prelude.{
  ℕ, ◌≤◌, ◌<◌, String, ◌≡◌, refl, Bool, true, false, not, ◌&&◌, List, [], ◌∷◌, ◌++◌, any, ltb, ◌==◌,
  if◌then◌else◌, arith, eq_iff, inl, inr, Bool-cases, subst,
}
use jamp.Prelude.Dict.{Dict, keys, contains}
use jamp.Causal.Clock.{
  VectorClock, CausalRelation, before, after, concurrent, equal, value, value_in, relation,
}

any-true : (p : String → Bool) (xs : List String) → any p xs ≡ true → (x : String) × (p x ≡ true)
any-true p [] h = absurd (cc h)
any-true p (x ∷ xs) h = elim (Bool-cases (p x)) [
  | inl yes_here ↦ (x, yes_here)
  | inr not_here ↦ any-true p xs (rw not_here at h)
]

any-false :
    (p : String → Bool) (xs : List String) (k : String)
    → any p xs ≡ false
    → contains k xs ≡ true
    → p k ≡ false
any-false p [] k h c = absurd (cc c)
any-false p (x ∷ xs) k h c = elim (Bool-cases (x == k)) [
  | inl same ↦ subst (λ y. p y ≡ false) ((eq_iff x k).0 same) (ground arith)
  | inr differ ↦ any-false p xs k (ground arith) (rw differ at c)
]

contains-append-left :
    (k : String) (xs ys : List String) → contains k xs ≡ true → contains k (xs ++ ys) ≡ true
contains-append-left k [] ys h = absurd (cc h)
contains-append-left k (x ∷ xs) ys h = ground (arith, contains-append-left k xs ys)

contains-append-right :
    (k : String) (xs ys : List String) → contains k ys ≡ true → contains k (xs ++ ys) ≡ true
contains-append-right k [] ys h = h
contains-append-right k (x ∷ xs) ys h = ground (arith, contains-append-right k xs ys h)

-- A value that is not zero has its key among the components.
listed : (d : Dict ℕ) (k : String) → 0 < value_in d k → contains k (keys d) ≡ true
listed [] k h = absurd (omega arith)
listed ((j, n) ∷ d) k h = elim (Bool-cases (j == k)) [
  | inl same ↦ rw same refl
  | inr differ ↦ rw differ (listed d k (rw differ at h))
]

-- Every component of `a` is at most that of `b`.
abbrev pub AtMost : VectorClock → VectorClock → Type 0
AtMost a b = (k : String) → value a k ≤ value b k

-- Some component of `a` is less than that of `b`.
abbrev pub SomeLess : VectorClock → VectorClock → Type 0
SomeLess a b = (k : String) × (value a k < value b k)

abbrev pub Relates : VectorClock → VectorClock → CausalRelation → Type 0
Relates a b before = AtMost a b × SomeLess a b
Relates a b after = AtMost b a × SomeLess b a
Relates a b equal = (k : String) → value a k ≡ value b k
Relates a b concurrent = SomeLess a b × SomeLess b a

not_less :
    (a b : VectorClock) (xs : List String)
    → any (λ k. ltb (value a k) (value b k)) xs ≡ false
    → ((k : String) → contains k (keys b.components) ≡ true → contains k xs ≡ true)
    → AtMost b a
not_less a b xs h within k = elim (Bool-cases (ltb (value a k) (value b k))) [
  | inl less ↦ absurd (
      clash (ltb (value a k) (value b k)) less (
        any-false (λ j. ltb (value a j) (value b j)) xs k h
          (within k (listed b.components k (ground arith)))))
  | inr more ↦ ground arith
]
  where
    clash : (t : Bool) → t ≡ true → t ≡ false → ⊥
    clash t p q = cc (p, q)

some_less :
    (a b : VectorClock) (xs : List String)
    → any (λ k. ltb (value a k) (value b k)) xs ≡ true
    → SomeLess a b
some_less a b xs h =
    let (k, l) = any-true (λ j. ltb (value a j) (value b j)) xs h in (k, ground arith)

relation-by :
    (a b : VectorClock) (xs : List String)
    → ((k : String) → contains k (keys a.components) ≡ true → contains k xs ≡ true)
    → ((k : String) → contains k (keys b.components) ≡ true → contains k xs ≡ true)
    → (less greater : Bool) → any (λ k. ltb (value a k) (value b k)) xs ≡ less
    → any (λ k. ltb (value b k) (value a k)) xs ≡ greater
    → Relates a b (
        if less && not greater
        then before
        else if greater && not less
        then after
        else if not less && not greater
        then equal
        else concurrent)
relation-by a b xs in_a in_b true true l g = (some_less a b xs l, some_less b a xs g)
relation-by a b xs in_a in_b true false l g = (not_less b a xs g in_a, some_less a b xs l)
relation-by a b xs in_a in_b false true l g = (not_less a b xs l in_b, some_less b a xs g)
relation-by a b xs in_a in_b false false l g =
    λ k. omega (arith, not_less b a xs g in_a k, not_less a b xs l in_b k)

-- The relation of two clocks is what it says, over all event ids and not only those that the clocks
-- name: BEFORE if the first is nowhere above the second and somewhere below it, AFTER the other way
-- round, EQUAL if they agree everywhere, CONCURRENT if each is somewhere below the other.
pub relation-Relates : (a b : VectorClock) → Relates a b (relation a b)
unfolding relation
relation-Relates a b =
    let all_keys = keys a.components ++ keys b.components in
    relation-by a b all_keys (λ k. contains-append-left k (keys a.components) (keys b.components))
      (λ k. contains-append-right k (keys a.components) (keys b.components))
      (any (λ k. ltb (value a k) (value b k)) all_keys)
      (any (λ k. ltb (value b k) (value a k)) all_keys) refl refl
