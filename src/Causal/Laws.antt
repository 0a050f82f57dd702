-- ===== src/Causal/Laws.antt =====
-- What merging and advancing do to the values of vector clocks.
use jamp.Prelude.{
  ℕ, ◌+◌, max, String, ◌≡◌, refl, Bool, true, false, not, ◌&&◌, List, [], ◌∷◌, All, ok, ◌==◌,
  if◌then◌else◌, arith, eq_iff, inl, inr, Bool-cases, subst, ap, ◌∙◌,
}
use jamp.Prelude.Text.{nonempty}
use jamp.Prelude.Dict.{Dict, insert, keys, contains, lookup-insert}
use jamp.Causal.Clock.{
  VectorClock, value, value_in, or_zero, full_keys, distinct_keys, merge_into, merge_all, merge,
  tick,
}
use jamp.Causal.Merge.{IsClock, from_mapping-ok, insert-IsClock}

abbrev pub Valid : VectorClock → Type 0
Valid c = IsClock c.components

value_in-insert :
    (k j : String) (n : ℕ) (d : Dict ℕ)
    → value_in (insert k n d) j ≡ (if k == j then n else value_in d j)
value_in-insert k j n d = elim (Bool-cases (k == j)) [
  | inl same ↦ ap or_zero (lookup-insert k j n d) ∙ rw same refl
  | inr differ ↦ ap or_zero (lookup-insert k j n d) ∙ rw differ refl
]

tail-IsClock :
    (k : String) (n : ℕ) (d : Dict ℕ)
    → IsClock ((k, n) ∷ d)
    → (nonempty k ≡ true) × (contains k (keys d) ≡ false) × IsClock d
tail-IsClock k n d i =
    let (e, f) = full (nonempty k) (full_keys d) i.full in
    let (c, g) = distinct (contains k (keys d)) (distinct_keys d) i.distinct in
    (e, c, record { full = f; distinct = g })
  where
    full : (a b : Bool) → (a && b) ≡ true → (a ≡ true) × (b ≡ true)
    full a b h = ground arith

    distinct : (a b : Bool) → (not a && b) ≡ true → (a ≡ false) × (b ≡ true)
    distinct a b h = ground arith

absent : (k : String) (d : Dict ℕ) → contains k (keys d) ≡ false → value_in d k ≡ 0
absent k [] h = refl
absent k ((j, n) ∷ d) h = elim (Bool-cases (j == k)) [
  | inl same ↦ absurd (cc (rw same at h))
  | inr differ ↦ rw differ (absent k d (rw differ at h))
]

merge_into-value :
    (d c : Dict ℕ)
    → IsClock d
    → IsClock c
    → IsClock (merge_into d c)
      × ((j : String) → value_in (merge_into d c) j ≡ max (value_in d j) (value_in c j))
unfolding merge_into
merge_into-value d [] i ic = (i, λ j. omega arith)
merge_into-value d ((k, n) ∷ rest) i ic =
    let (full, fresh, ir) = tail-IsClock k n rest ic in
    let d1 = insert k (max (value_in d k) n) d in
    let (valid, values) =
      merge_into-value d1 rest (insert-IsClock k (max (value_in d k) n) d full i) ir in
    (
      valid,
      λ j. elim (Bool-cases (k == j)) [
        | inl same ↦
            values j
            ∙ rw (value_in-insert k j (max (value_in d k) n) d, same)
                (let kj = (eq_iff k j).0 same in
                  omega (
                    arith,
                    ap (value_in d) kj,
                    absent j rest (subst (λ x. contains x (keys rest) ≡ false) kj fresh),
                  ))
        | inr differ ↦ values j ∙ rw (value_in-insert k j (max (value_in d k) n) d, differ) refl
      ],
    )

abbrev pub maximum_at : String → List VectorClock → ℕ
maximum_at k [] = 0
maximum_at k (c ∷ cs) = max (value c k) (maximum_at k cs)

merge_all-value :
    (d : Dict ℕ) (cs : List VectorClock)
    → IsClock d
    → All Valid cs
    → IsClock (merge_all d cs)
      × ((j : String) → value_in (merge_all d cs) j ≡ max (value_in d j) (maximum_at j cs))
unfolding merge_all
merge_all-value d [] i v = (i, λ j. omega arith)
merge_all-value d (c ∷ cs) i v =
    let (i1, v1) = merge_into-value d c.components i v.0 in
    let (i2, v2) = merge_all-value (merge_into d c.components) cs i1 v.1 in
    (i2, λ j. omega (arith, v2 j, v1 j))

-- Merging valid clocks gives a valid clock, in which every event id has the largest of its values.
pub merge-value :
    (c : VectorClock) (others : List VectorClock)
    → Valid c
    → All Valid others
    → (m : VectorClock) × (merge c others ≡ ok m)
      × Valid m
      × ((k : String) → value m k ≡ max (value c k) (maximum_at k others))
unfolding merge
merge-value c others v vs =
    let (i, values) = merge_all-value c.components others v vs in
    let (m, e, im, vm) = from_mapping-ok (merge_all c.components others) i in
    (m, e, im, λ k. vm k ∙ values k)

-- Advancing a valid clock at an event id that is not empty gives a valid clock in which that id has
-- one more and every other id what it had.
pub tick-value :
    (c : VectorClock) (id : String)
    → Valid c
    → nonempty id ≡ true
    → (m : VectorClock) × (tick c id ≡ ok m)
      × Valid m
      × ((k : String) → value m k ≡ (if id == k then value c k + 1 else value c k))
unfolding tick
tick-value c id v e =
    let n = value c id + 1 in
    let (m, em, im, vm) =
      from_mapping-ok (insert id n c.components) (insert-IsClock id n c.components e v) in
    (m, em, im, λ k. vm k ∙ value_in-insert id k n c.components ∙ ground (arith, eq_iff id k))
