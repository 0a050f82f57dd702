-- ===== src/Runtime/Closed.antt =====
-- What a gate that was made from an evidence document refuses.
use jamp.Prelude.{
  String, ◌≡◌, refl, Bool, true, false, ◌&&◌, Option, none, some, List, [], ◌∷◌, all, Except, ok,
  err, ◌>>◌, require, length, nat_beq, ◌==◌, after-of-bind, arith, eq_iff, Bool-cases, inl, inr, ap,
}
use jamp.Prelude.Dict.{Dict, keys, contains}
use jamp.Canonical.{Value, dict, list, Items, Fields}
use jamp.Ledger.{get_field}
use jamp.Runtime.Claims.{PythonError, value_error}
use jamp.Runtime.Gate.{
  make_gate, models_of, dict_field, count, expected_capabilities, is_verified_raw, evaluate_model,
  keep, get_eligible_models,
}
use jamp.Runtime.Eligible.{KnownRow, RowsKnown, known_keys-none, check_models-RowsKnown}

row-refuses :
    (row : Fields) (c : String)
    → KnownRow row
    → contains c expected_capabilities ≡ false
    → is_verified_raw row c ≡ false
row-refuses row c (checks, e, k) n =
    let no_check : dict_field c checks ≡ none =
      ap field_dict (known_keys-none expected_capabilities c checks n k) in
    rw (e, no_check) refl
  where
    field_dict : Option Value → Option Fields
    field_dict o = elim o [ some (dict d) ↦ some d | _ ↦ none ]

refuses-all :
    (row : Fields) (c : String) (required : List String)
    → is_verified_raw row c ≡ false
    → contains c required ≡ true
    → all (is_verified_raw row) required ≡ false
refuses-all row c [] r h = cc
refuses-all row c (x ∷ xs) r h = elim (Bool-cases (x == c)) [
  | inl same ↦ rw ((eq_iff x c).0 same, r) refl
  | inr differ ↦
      falls (is_verified_raw row x) (all (is_verified_raw row) xs)
        (refuses-all row c xs r (rw differ at h))
]
  where
    falls : (a b : Bool) → b ≡ false → (a && b) ≡ false
    falls a b e = ground arith

model-refuses :
    (models : Dict Fields) (c : String) (required : List String) (id : String)
    → RowsKnown models
    → contains c expected_capabilities ≡ false
    → contains c required ≡ true
    → evaluate_model models required id ≡ false
unfolding evaluate_model
model-refuses [] c required id k n h = refl
model-refuses ((j, row) ∷ models) c required id k n h = elim (Bool-cases (j == id)) [
  | inl same ↦ rw (same, evaluate_model) (refuses-all row c required (row-refuses row c k.0 n) h)
  | inr differ ↦ rw (differ, evaluate_model) (model-refuses models c required id k.1 n h)
]

keep-none : (p : String → Bool) (xs : List String) → ((x : String) → p x ≡ false) → keep p xs ≡ []
keep-none p [] h = refl
keep-none p (x ∷ xs) h = rw (h x) (keep-none p xs h)

counted : (doc : Fields) (vs : Items) → models_of doc ≡ ok vs → nat_beq (count vs) 17 ≡ true
counted doc vs h = picked (get_field "models" doc) vs h
  where
    picked :
        (o : Option Value) (vs : Items)
        → (elim o as (λ _. Except PythonError Items) [
          | some (list xs) ↦ require (nat_beq (count xs) 17) value_error >> ok xs
          | _ ↦ err value_error
        ])
          ≡ ok vs
        → nat_beq (count vs) 17 ≡ true
    picked o vs h = ground arith

gate-RowsKnown :
    (v : Value) (models : Dict Fields)
    → make_gate v ≡ ok models
    → RowsKnown models × (length models ≡ 17)
unfolding make_gate
gate-RowsKnown (dict doc) models h =
    let (vs, e, h1) = after-of-bind _ (models_of doc) _ h in
    let (k, l) = check_models-RowsKnown 1 [] vs models h1 in (k, ground (arith, counted doc vs e))
gate-RowsKnown _ models h = absurd (cc h)

-- A gate that a document was accepted for has its 17 models, and lets no model through where a
-- capability is required that is not one of the ten expected ones.
pub make_gate-fails_closed :
    (v : Value) (models : Dict Fields)
    → make_gate v ≡ ok models
    → (length models ≡ 17)
      × ((required : List String) (c : String)
          → contains c expected_capabilities ≡ false
          → contains c required ≡ true
          → get_eligible_models models required ≡ [])
unfolding get_eligible_models
make_gate-fails_closed v models h =
    let (k, l) = gate-RowsKnown v models h in
    (
      l,
      λ required. λ c. λ n. λ there.
          keep-none (evaluate_model models required) (keys models)
            (λ id. model-refuses models c required id k n there),
    )
