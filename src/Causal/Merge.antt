-- ===== src/Causal/Merge.antt =====
-- Merging and advancing vector clocks.
use jamp.Prelude.{
  ℕ, String, ◌≡◌, refl, Bool, true, false, not, ◌&&◌, ◌||◌, some, [], ◌∷◌, ok, ◌==◌, if◌then◌else◌,
  arith, eq_iff, inl, inr, Bool-cases, ap, ◌∙◌,
}
use text.Mathlib.TextPositions.{eq_refl}
use jamp.Prelude.Text.{nonempty}
use jamp.Prelude.Dict.{Dict, lookup, insert, keys, contains}
use jamp.Prelude.Sort.{insert_sorted, sort}
use jamp.Prelude.TextOrder.{leb_text_total}
use jamp.Prelude.Sorted.{sort_twice}
use jamp.Causal.Clock.{
  VectorClock, value, value_in, or_zero, leb_pair, same_pairs, full_keys, distinct_keys, make_clock,
  from_mapping,
}

-- What `VectorClock` checks of the keys.
pub record IsClock (d : Dict ℕ) : Type 0 where
  pub full : full_keys d ≡ true
  pub distinct : distinct_keys d ≡ true

module _ (e : String × ℕ) where
  contains-insert_sorted :
      (k : String) (d : Dict ℕ)
      → contains k (keys (insert_sorted leb_pair e d)) ≡ (e.0 == k || contains k (keys d))
  unfolding insert_sorted
  contains-insert_sorted k [] = refl
  contains-insert_sorted k (x ∷ d) = elim (Bool-cases (leb_pair e x)) [
    | inl before ↦ rw before refl
    | inr behind ↦ rw (behind, contains-insert_sorted k d) (ground arith)
  ]

  full-insert_sorted :
      (d : Dict ℕ) → full_keys (insert_sorted leb_pair e d) ≡ (nonempty e.0 && full_keys d)
  unfolding insert_sorted
  full-insert_sorted [] = refl
  full-insert_sorted (x ∷ d) = elim (Bool-cases (leb_pair e x)) [
    | inl before ↦ rw before refl
    | inr behind ↦ rw (behind, full-insert_sorted d) (ground arith)
  ]

  distinct-insert_sorted :
      (d : Dict ℕ)
      → distinct_keys (insert_sorted leb_pair e d)
        ≡ (not (contains e.0 (keys d)) && distinct_keys d)
  unfolding insert_sorted
  distinct-insert_sorted [] = refl
  distinct-insert_sorted (x ∷ d) = elim (Bool-cases (leb_pair e x)) [
    | inl before ↦ rw before refl
    | inr behind ↦
        rw (behind, distinct-insert_sorted d, contains-insert_sorted x.0 d)
          (ground (arith, eq_iff e.0 x.0, eq_iff x.0 e.0))
  ]

  lookup-insert_sorted :
      (k : String) (d : Dict ℕ)
      → contains e.0 (keys d) ≡ false
      → lookup k (insert_sorted leb_pair e d) ≡ (if e.0 == k then some e.1 else lookup k d)
  unfolding insert_sorted
  lookup-insert_sorted k [] h = refl
  lookup-insert_sorted k (x ∷ d) h = elim (Bool-cases (leb_pair e x)) [
    | inl before ↦ rw before refl
    | inr behind ↦
        rw (behind, lookup-insert_sorted k d (ground arith))
          (ground (arith, eq_iff e.0 k, eq_iff x.0 k, eq_iff x.0 e.0))
  ]

leb_pair_total : (x y : String × ℕ) → leb_pair x y ≡ false → leb_pair y x ≡ true
leb_pair_total x y h = ground (arith, eq_iff x.0 y.0, eq_iff y.0 x.0, leb_text_total x.0 y.0)

same_pairs_self : (d : Dict ℕ) → same_pairs d d ≡ true
same_pairs_self [] = refl
same_pairs_self ((k, n) ∷ d) = ground (arith, same_pairs_self d, eq_refl k)

contains-sort :
    (k : String) (d : Dict ℕ) → contains k (keys (sort leb_pair d)) ≡ contains k (keys d)
unfolding sort
contains-sort k [] = refl
contains-sort k (x ∷ d) = contains-insert_sorted x k (sort leb_pair d) ∙ rw (contains-sort k d) refl

full-sort : (d : Dict ℕ) → full_keys (sort leb_pair d) ≡ full_keys d
unfolding sort
full-sort [] = refl
full-sort (x ∷ d) = full-insert_sorted x (sort leb_pair d) ∙ rw (full-sort d) refl

distinct-sort : (d : Dict ℕ) → distinct_keys (sort leb_pair d) ≡ distinct_keys d
unfolding sort
distinct-sort [] = refl
distinct-sort (x ∷ d) =
    distinct-insert_sorted x (sort leb_pair d) ∙ rw (contains-sort x.0 d, distinct-sort d) refl

lookup-sort :
    (k : String) (d : Dict ℕ) → distinct_keys d ≡ true → lookup k (sort leb_pair d) ≡ lookup k d
unfolding sort
lookup-sort k [] h = refl
lookup-sort k (x ∷ d) h =
    let (fresh, rest) = parts (contains x.0 (keys d)) (distinct_keys d) h in
    lookup-insert_sorted x k (sort leb_pair d) (contains-sort x.0 d ∙ fresh)
    ∙ rw (lookup-sort k d rest) refl
  where
    parts : (a b : Bool) → (not a && b) ≡ true → (a ≡ false) × (b ≡ true)
    parts a b h = ground arith

-- `from_mapping` of a dict without an empty key makes a clock with the dict's values.
pub from_mapping-ok :
    (d : Dict ℕ)
    → IsClock d
    → (c : VectorClock) × (from_mapping d ≡ ok c)
      × IsClock c.components
      × ((k : String) → value c k ≡ value_in d k)
unfolding from_mapping make_clock
from_mapping-ok d i = (
  record { components = sort leb_pair d },
  rw
      (
        sort_twice leb_pair leb_pair_total d,
        same_pairs_self (sort leb_pair d),
        full-sort d,
        distinct-sort d,
        i.full,
        i.distinct,
      )
      refl,
  record { full = full-sort d ∙ i.full; distinct = distinct-sort d ∙ i.distinct },
  λ k. ap or_zero (lookup-sort k d i.distinct),
)

contains-insert :
    (j k : String) (n : ℕ) (d : Dict ℕ)
    → contains j (keys (insert k n d)) ≡ (k == j || contains j (keys d))
contains-insert j k n [] = refl
contains-insert j k n (e ∷ d) = elim (Bool-cases (e.0 == k)) [
  | inl same ↦ rw same (ground (arith, eq_iff e.0 k, eq_iff e.0 j, eq_iff k j))
  | inr differ ↦ rw (differ, contains-insert j k n d) (ground arith)
]

pub insert-IsClock :
    (k : String) (n : ℕ) (d : Dict ℕ) → nonempty k ≡ true → IsClock d → IsClock (insert k n d)
insert-IsClock k n [] e i = record { full = rw e refl; distinct = refl }
insert-IsClock k n (x ∷ d) e i = elim (Bool-cases (x.0 == k)) [
  | inl same ↦ record { full = rw same i.full; distinct = rw same i.distinct }
  | inr differ ↦
      let rest =
        insert-IsClock k n d e
          (record { full = ground (arith, i.full); distinct = ground (arith, i.distinct) }) in
      record {
        full = rw differ (ground (arith, rest.full, i.full));
        distinct =
            rw (differ, contains-insert x.0 k n d)
              (ground (arith, rest.distinct, i.distinct, eq_iff k x.0, eq_iff x.0 k));
      }
]
