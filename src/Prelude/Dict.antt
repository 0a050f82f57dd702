-- ===== src/Prelude/Dict.antt =====
-- Python's `dict` with text keys, in insertion order, and `set` of texts.
use Prim.Native.String.{String}
use mathlib.Core.Path.{◌≡◌, refl, ap, ◌∙◌}
use mathlib.Core.Bool.{Bool, true, false, ◌||◌}
use mathlib.Core.Option.{Option, none, some}
use mathlib.Core.List.{List, [], ◌∷◌, ◌++◌}
use native.Mathlib.Omega.{arith}
use text.Mathlib.Text.{◌==◌}
use text.Mathlib.TextEquality.{eq_iff}
use text.Mathlib.TextPositions.{eq_refl}
use mathlib.Core.Logic.{inl, inr}
use jamp.Prelude.Tests.{if◌then◌else◌, Bool-cases}

abbrev pub Dict {ℓ} : Type ℓ → Type ℓ
Dict V = List (String × V)

module _ {ℓ} {V : Type ℓ} where
  -- `d.get(k)`
  abbrev pub lookup : String → Dict V → Option V
  lookup k [] = none
  lookup k ((j, v) ∷ d) = if j == k then some v else lookup k d

  abbrev pub is_some : Option V → Bool
  is_some none = false
  is_some (some v) = true

  -- `k in d`
  abbrev pub has_key : String → Dict V → Bool
  has_key k d = is_some (lookup k d)

  -- `d[k] = v`: in place, or at the end.
  abbrev pub insert : String → V → Dict V → Dict V
  insert k v [] = (k, v) ∷ []
  insert k v (e ∷ d) = if e.0 == k then (e.0, v) ∷ d else e ∷ insert k v d

  -- `d.values()`
  abbrev pub values : Dict V → List V
  values [] = []
  values ((k, v) ∷ d) = v ∷ values d

  -- `list(d)`
  abbrev pub keys : Dict V → List String
  keys [] = []
  keys ((k, v) ∷ d) = k ∷ keys d

  pub lookup-insert :
      (k j : String) (v : V) (d : Dict V)
      → lookup j (insert k v d) ≡ (if k == j then some v else lookup j d)
  lookup-insert k j v [] = refl
  lookup-insert k j v (e ∷ d) =
      ground (arith, eq_iff k j, eq_iff e.0 k, eq_iff e.0 j, lookup-insert k j v d)

  pub insert-new :
      (k : String) (v : V) (d : Dict V) → lookup k d ≡ none → insert k v d ≡ d ++ (k, v) ∷ []
  insert-new k v [] h = refl
  insert-new k v (e ∷ d) h = ground (arith, insert-new k v d)

  pub lookup-insert_self : (k : String) (v : V) (d : Dict V) → lookup k (insert k v d) ≡ some v
  lookup-insert_self k v d = simp (lookup-insert, eq_refl)

-- A set of texts, as a list.
abbrev pub contains : String → List String → Bool
contains k [] = false
contains k (j ∷ s) = j == k || contains k s

abbrev pub add : String → List String → List String
add k s = if contains k s then s else k ∷ s

pub contains-add :
    (k j : String) (s : List String) → contains j (add k s) ≡ (k == j || contains j s)
contains-add k j s = ground (arith, eq_iff k j)

module _ {ℓ} {V : Type ℓ} where
  -- The keys of a dict differ.
  abbrev pub DistinctKeys : Dict V → Type 0
  DistinctKeys [] = Unit
  DistinctKeys ((k, v) ∷ d) = (contains k (keys d) ≡ false) × DistinctKeys d

  -- `{j: v for j, v in d.items() if j != k}`
  abbrev pub without : String → Dict V → Dict V
  without k [] = []
  without k ((j, v) ∷ d) = let rest = without k d in if j == k then rest else (j, v) ∷ rest

  pub lookup-without :
      (k j : String) (d : Dict V) → lookup j (without k d) ≡ (if k == j then none else lookup j d)
  lookup-without k j [] = ground arith
  lookup-without k j ((i, v) ∷ d) =
      ground (arith, lookup-without k j d, eq_iff i k, eq_iff i j, eq_iff k j)

  keys-insert :
      (x k : String) (v : V) (d : Dict V)
      → contains x (keys (insert k v d)) ≡ (contains x (keys d) || k == x)
  keys-insert x k v [] = ground arith
  keys-insert x k v ((j, w) ∷ d) =
      ground (arith, keys-insert x k v d, eq_iff j k, eq_iff j x, eq_iff k x)

  keys-without :
      (x k : String) (d : Dict V)
      → contains x (keys d) ≡ false
      → contains x (keys (without k d)) ≡ false
  keys-without x k [] h = refl
  keys-without x k ((j, v) ∷ d) h = ground (arith, h, keys-without x k d)

  pub insert-DistinctKeys :
      (k : String) (v : V) (d : Dict V) → DistinctKeys d → DistinctKeys (insert k v d)
  insert-DistinctKeys k v [] h = (refl, tt)
  insert-DistinctKeys k v ((j, w) ∷ d) h = elim (Bool-cases (j == k)) [
    | inl same ↦ rw same h
    | inr differ ↦ rw differ (
      ground (arith, h.0, keys-insert j k v d, differ, eq_iff j k, eq_iff k j),
      insert-DistinctKeys k v d h.1,
    )
  ]

  pub without-DistinctKeys : (k : String) (d : Dict V) → DistinctKeys d → DistinctKeys (without k d)
  without-DistinctKeys k [] h = tt
  without-DistinctKeys k ((j, v) ∷ d) h = elim (Bool-cases (j == k)) [
    | inl same ↦ rw same (without-DistinctKeys k d h.1)
    | inr differ ↦ rw differ (keys-without j k d h.0, without-DistinctKeys k d h.1)
  ]

  pub without-insert : (k : String) (v : V) (d : Dict V) → without k (insert k v d) ≡ without k d
  without-insert k v [] = rw (eq_refl k) refl
  without-insert k v ((j, w) ∷ d) = elim (Bool-cases (j == k)) [
    | inl same ↦ rw same (rw same refl)
    | inr differ ↦ rw differ (rw differ (ap (λ x. (j, w) ∷ x) (without-insert k v d)))
  ]

  pub lookup-without_same :
      (k j : String) (d : Dict V) → (k == j) ≡ true → lookup j (without k d) ≡ none
  lookup-without_same k j d h = lookup-without k j d ∙ rw h refl

  pub lookup-without_other :
      (k j : String) (d : Dict V) → (k == j) ≡ false → lookup j (without k d) ≡ lookup j d
  lookup-without_other k j d h = lookup-without k j d ∙ rw h refl
