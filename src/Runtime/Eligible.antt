-- ===== src/Runtime/Eligible.antt =====
-- Which models the evidence gate lets through, and what the selector makes of them.
use jamp.Prelude.{
  ℕ, suc, String, ◌≡◌, refl, Bool, true, false, ◌&&◌, Option, none, some, List, [], ◌∷◌, all, ok,
  length, ◌==◌, ok-of-bind, after-of-bind, guard-of-then, arith, eq_iff, ◌⊎◌, inl, inr, Bool-cases,
  Option-cases, sym, ap, subst, ◌∙◌,
}
use jamp.Prelude.Dict.{Dict, lookup, keys, contains}
use jamp.Canonical.{Value, str, dict, Items, nil, cons, Fields, end, field, text, other}
use jamp.Ledger.{get_field}
use jamp.Verdict.Stages.{field_is}
use jamp.Runtime.Gate.{
  check_model, check_models, known_keys, exact_keys, or_refuse, text_field, expected_capabilities,
  dict_field, is_verified_raw, evaluate_model, keep, get_eligible_models, count,
}
use jamp.Runtime.Selector.{Selection, refuse, execute, execute_pool, select}

abbrev pub Among : String → List String → Type 0
Among m [] = ⊥
Among m (x ∷ xs) = (m ≡ x) ⊎ Among m xs

keep-Among : (p : String → Bool) (m : String) (xs : List String) → Among m (keep p xs) → p m ≡ true
keep-Among p m [] h = absurd h
keep-Among p m (x ∷ xs) h = elim (Bool-cases (p x)) [
  | inl kept ↦ elim (rw kept at h) [ inl e ↦ ap p e ∙ kept | inr later ↦ keep-Among p m xs later ]
  | inr dropped ↦ keep-Among p m xs (rw dropped at h)
]

-- The row has at its key "checks", under the capability, a check whose raw status is the text VERIFIED.
abbrev pub VerifiedAt : Fields → String → Type 0
VerifiedAt row c =
    (checks : Fields) × (check : Fields) × (get_field "checks" row ≡ some (dict checks))
    × (get_field c checks ≡ some (dict check))
    × (get_field "raw_status" check ≡ some (str "VERIFIED"))

abbrev pub AllVerified : Fields → List String → Type 0
AllVerified row [] = Unit
AllVerified row (c ∷ cs) = VerifiedAt row c × AllVerified row cs

-- The model's row in the evidence has every required capability verified.
abbrev pub Backed : Dict Fields → List String → String → Type 0
Backed models required m = (row : Fields) × (lookup m models ≡ some row) × AllVerified row required

raw_status-verified :
    (check : Fields)
    → field_is "raw_status" "VERIFIED" check ≡ true
    → get_field "raw_status" check ≡ some (str "VERIFIED")
raw_status-verified check h = text_there (get_field "raw_status" check) h
  where
    text_there :
        (o : Option Value)
        → elim o as (λ _. Bool) [ some (str x) ↦ x == "VERIFIED" | _ ↦ false ] ≡ true
        → o ≡ some (str "VERIFIED")
    text_there (some (str x)) h = ap (λ y. some (str y)) ((eq_iff x "VERIFIED").0 h)
    text_there none h = cc
    text_there (some _) h = cc

dict_field-found :
    (k : String) (row checks : Fields)
    → dict_field k row ≡ some checks
    → get_field k row ≡ some (dict checks)
dict_field-found k row checks h = dict_there (get_field k row) h
  where
    dict_there :
        (o : Option Value)
        → elim o as (λ _. Option Fields) [ some (dict d) ↦ some d | _ ↦ none ] ≡ some checks
        → o ≡ some (dict checks)
    dict_there (some (dict d)) h = ap (λ x. some (dict x)) (cc h)
    dict_there none h = cc
    dict_there (some _) h = cc

is_verified_raw-VerifiedAt :
    (row : Fields) (c : String) → is_verified_raw row c ≡ true → VerifiedAt row c
is_verified_raw-VerifiedAt row c h = elim (Option-cases (dict_field "checks" row)) [
  | inl no_checks ↦ absurd (clash (sym (rw no_checks refl) ∙ h))
  | inr (checks, e) ↦ elim (Option-cases (dict_field c checks)) [
    | inl no_check ↦ absurd (clash (sym (rw (e, no_check) refl) ∙ h))
    | inr (check, f) ↦ (
      checks,
      check,
      dict_field-found "checks" row checks e,
      dict_field-found c checks check f,
      raw_status-verified check (sym (rw (e, f) refl) ∙ h),
    )
  ]
]
  where
    clash : false ≡ true → ⊥
    clash h = cc

is_verified_raw-AllVerified :
    (row : Fields) (cs : List String) → all (is_verified_raw row) cs ≡ true → AllVerified row cs
is_verified_raw-AllVerified row [] h = tt
is_verified_raw-AllVerified row (c ∷ cs) h =
    let (first, rest) = both (is_verified_raw row c) (all (is_verified_raw row) cs) h in
    (is_verified_raw-VerifiedAt row c first, is_verified_raw-AllVerified row cs rest)
  where
    both : (a b : Bool) → (a && b) ≡ true → (a ≡ true) × (b ≡ true)
    both a b h = ground arith

evaluate_model-Backed :
    (models : Dict Fields) (required : List String) (m : String) (o : Option Fields)
    → lookup m models ≡ o
    → (elim o [ none ↦ false | some row ↦ all (is_verified_raw row) required ]) ≡ true
    → Backed models required m
evaluate_model-Backed models required m (some row) e h =
    (row, e, is_verified_raw-AllVerified row required h)
evaluate_model-Backed models required m none e h = cc

eligible-Backed :
    (models : Dict Fields) (required : List String) (m : String)
    → Among m (get_eligible_models models required)
    → Backed models required m
unfolding get_eligible_models evaluate_model
eligible-Backed models required m h =
    evaluate_model-Backed models required m (lookup m models) refl
      (keep-Among (evaluate_model models required) m (keys models) h)

-- A selection that runs the model.
abbrev pub Runs : String → Selection → Type 0
Runs m refuse = ⊥
Runs m (execute x) = m ≡ x
Runs m (execute_pool pool) = Among m pool

select-Among :
    (pool : List String) (profile m : String) (s : Selection)
    → select pool profile ≡ ok s
    → Runs m s
    → Among m pool
unfolding select
select-Among [] profile m (execute x) h r = absurd (ground arith)
select-Among [] profile m (execute_pool xs) h r = absurd (ground arith)
select-Among pool profile m refuse h r = absurd r
select-Among (x ∷ xs) profile m (execute y) h r = inl (ground arith)
select-Among (x ∷ xs) profile m (execute_pool ys) h r = ground arith

-- A model that the selector executes from the pool of the evidence gate, alone or with the pool, has a
-- row in the evidence in which every required capability has the raw status VERIFIED.
pub select-Backed :
    (models : Dict Fields) (required : List String) (profile m : String) (s : Selection)
    → select (get_eligible_models models required) profile ≡ ok s
    → Runs m s
    → Backed models required m
select-Backed models required profile m s h r =
    eligible-Backed models required m
      (select-Among (get_eligible_models models required) profile m s h r)

-- The capabilities of a row are known ones only.
abbrev pub KnownRow : Fields → Type 0
KnownRow row =
    (checks : Fields) × (dict_field "checks" row ≡ some checks)
    × (known_keys expected_capabilities checks ≡ true)

module _ (known : List String) (c : String) where
  known-differs :
      (k : String) → contains c known ≡ false → contains k known ≡ true → (k == c) ≡ false
  known-differs k n h = elim (Bool-cases (k == c)) [
    | inl same ↦ absurd (cc (n, subst (λ x. contains x known ≡ true) ((eq_iff k c).0 same) h))
    | inr differ ↦ differ
  ]

  pub known_keys-none :
      (checks : Fields)
      → contains c known ≡ false
      → known_keys known checks ≡ true
      → get_field c checks ≡ none
  known_keys-none end n h = refl
  known_keys-none (field other v fs) n h = cc
  known_keys-none (field (text k) v fs) n h =
      let (first, rest) = both (contains k known) (known_keys known fs) h in
      rw (known-differs k n first) (known_keys-none fs n rest)
    where
      both : (a b : Bool) → (a && b) ≡ true → (a ≡ true) × (b ≡ true)
      both a b h = ground arith

check_model-KnownRow :
    (n : ℕ) (seen : List String) (row : Fields) (id : String)
    → check_model n seen row ≡ ok id
    → KnownRow row
unfolding check_model
check_model-KnownRow n seen row id h =
    let (name, _, h1) = ok-of-bind (or_refuse (text_field "model_id" row)) _ h in
    let (checks, e, h2) = after-of-bind _ (or_refuse (dict_field "checks" row)) _ h1 in
    let (exact, _) = guard-of-then (exact_keys checks) _ _ _ h2 in
    (
      checks,
      found (dict_field "checks" row) checks e,
      known (known_keys expected_capabilities checks) _ exact,
    )
  where
    found : (o : Option Fields) (checks : Fields) → or_refuse o ≡ ok checks → o ≡ some checks
    found (some fs) checks e = cc e
    found none checks e = cc

    known : (a b : Bool) → (a && b) ≡ true → a ≡ true
    known a b h = ground arith

abbrev pub RowsKnown : Dict Fields → Type 0
RowsKnown [] = Unit
RowsKnown ((id, row) ∷ models) = KnownRow row × RowsKnown models

pub check_models-RowsKnown :
    (n : ℕ) (seen : List String) (vs : Items) (models : Dict Fields)
    → check_models n seen vs ≡ ok models
    → RowsKnown models × (length models ≡ count vs)
unfolding check_models
check_models-RowsKnown n seen nil [] h = (tt, refl)
check_models-RowsKnown n seen nil (m ∷ models) h = cc
check_models-RowsKnown n seen (cons (dict row) rest) models h =
    let (id, e, h1) = ok-of-bind (check_model n seen row) _ h in
    let (more, em, made) = ok-of-bind (check_models (suc n) (id ∷ seen) rest) _ h1 in
    let (k, l) = check_models-RowsKnown (suc n) (id ∷ seen) rest more em in
    let is_models : (id, row) ∷ more ≡ models = cc made in
    subst (λ (x : Dict Fields). RowsKnown x × (length x ≡ suc (count rest))) is_models
      ((check_model-KnownRow n seen row id e, k), ap suc l)
check_models-RowsKnown n seen (cons _ rest) models h = absurd (cc h)
