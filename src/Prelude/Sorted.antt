-- ===== src/Prelude/Sorted.antt =====
-- Insertion sort: what it returns is sorted, and a sorted list is returned as it is.
use mathlib.Core.Path.{◌≡◌, refl}
use mathlib.Core.Logic.{inl, inr}
use mathlib.Core.Bool.{Bool, true, false}
use mathlib.Core.List.{List, [], ◌∷◌}
use jamp.Prelude.Tests.{Bool-cases}
use jamp.Prelude.Sort.{insert_sorted, sort}

module _ {ℓ} {A : Type ℓ} (leb : A → A → Bool) where
  abbrev Leads : A → List A → Type 0
  Leads x [] = Unit
  Leads x (y ∷ ys) = leb x y ≡ true

  abbrev pub IsSorted : List A → Type 0
  IsSorted [] = Unit
  IsSorted (x ∷ xs) = Leads x xs × IsSorted xs

  sorted_insert : (x : A) (xs : List A) → Leads x xs → insert_sorted leb x xs ≡ x ∷ xs
  unfolding insert_sorted
  sorted_insert x [] h = refl
  sorted_insert x (y ∷ ys) h = rw h refl

  sorted_sort : (xs : List A) → IsSorted xs → sort leb xs ≡ xs
  unfolding sort
  sorted_sort [] h = refl
  sorted_sort (x ∷ xs) h = rw (sorted_sort xs h.1) (sorted_insert x xs h.0)

  module _ (total : (x y : A) → leb x y ≡ false → leb y x ≡ true) where
    Leads-insert_sorted :
        (y x : A) (ys : List A) → Leads y ys → leb y x ≡ true → Leads y (insert_sorted leb x ys)
    unfolding insert_sorted
    Leads-insert_sorted y x [] h l = l
    Leads-insert_sorted y x (z ∷ zs) h l = elim (Bool-cases (leb x z)) [
      | inl before ↦ rw before l
      | inr behind ↦ rw behind h
    ]

    insert_sorted-IsSorted : (x : A) (xs : List A) → IsSorted xs → IsSorted (insert_sorted leb x xs)
    unfolding insert_sorted
    insert_sorted-IsSorted x [] h = (tt, tt)
    insert_sorted-IsSorted x (y ∷ ys) h = elim (Bool-cases (leb x y)) [
      | inl before ↦ rw before (before, h)
      | inr behind ↦
          rw behind
            (Leads-insert_sorted y x ys h.0 (total x y behind), insert_sorted-IsSorted x ys h.1)
    ]

    sort-IsSorted : (xs : List A) → IsSorted (sort leb xs)
    unfolding sort
    sort-IsSorted [] = tt
    sort-IsSorted (x ∷ xs) = insert_sorted-IsSorted x (sort leb xs) (sort-IsSorted xs)

    pub sort_twice : (xs : List A) → sort leb (sort leb xs) ≡ sort leb xs
    sort_twice xs = sorted_sort (sort leb xs) (sort-IsSorted xs)
