-- ===== src/Runtime/Gate.antt =====
-- `EvidenceGate` of src/jamp/runtime/evidence_gate.py.
use jamp.Prelude.{
  ℕ, suc, String, Bool, true, false, ◌&&◌, ◌||◌, Option, none, some, List, [], ◌∷◌, all, Except, ok,
  err, ◌>>=◌, ◌>>◌, require, refuse_if, nat_beq, ◌==◌, if◌then◌else◌,
}
use jamp.Prelude.Int.{pos}
use jamp.Prelude.Text.{is_blank}
use jamp.Prelude.Dict.{Dict, lookup, contains, keys}
use jamp.Canonical.{
  Value, int, float, str, list, dict, Items, nil, cons, Fields, end, field, text, other,
}
use jamp.Ledger.{get_field, has_field}
use jamp.Verdict.Stages.{hashable, field_is}
use jamp.Runtime.Claims.{PythonError, type_error, value_error}

abbrev pub Checked : Type 0 → Type 0
Checked A = Except PythonError A

-- `value == n` for a number `n` whose double has the bits given.
abbrev equals_number : ℕ → ℕ → Option Value → Bool
equals_number n bits (some (int (pos m))) = nat_beq m n
equals_number n bits (some (float b)) = nat_beq b bits
equals_number n bits _ = false

abbrev seventeen : String → Fields → Bool
seventeen k fs = equals_number 17 0x4031000000000000 (get_field k fs)

abbrev one_hundred_seventy : String → Fields → Bool
one_hundred_seventy k fs = equals_number 170 0x4065400000000000 (get_field k fs)

-- `EXPECTED_CAPABILITIES`
abbrev pub expected_capabilities : List String
expected_capabilities =
    "C01" ∷ "C02" ∷ "C03" ∷ "C04" ∷ "C05" ∷ "C06" ∷ "C07" ∷ "C08" ∷ "C09" ∷ "C10" ∷ []

abbrev pub known_keys : List String → Fields → Bool
known_keys known end = true
known_keys known (field (text k) v fs) = contains k known && known_keys known fs
known_keys known (field other v fs) = false

-- `set(checks) == set(EXPECTED_CAPABILITIES)`
abbrev pub exact_keys : Fields → Bool
exact_keys fs =
    known_keys expected_capabilities fs && all (λ k. has_field k fs) expected_capabilities

abbrev allowed_raw : String → Bool
allowed_raw s = s == "VERIFIED" || s == "CONTRADICTED" || s == "INCONCLUSIVE"

-- `check.get("raw_status") not in ALLOWED_RAW_STATUSES`; a missing status is `None`.
abbrev check_raw_status : Option Value → Checked (Unit {0})
check_raw_status none = err value_error
check_raw_status (some (str s)) = require (allowed_raw s) value_error
check_raw_status (some v) = require (hashable v) type_error >> err value_error

abbrev check_check : Option Value → Checked (Unit {0})
check_check (some (dict check)) = check_raw_status (get_field "raw_status" check)
check_check _ = err value_error

-- The loop over the capabilities.
unfoldable pub check_all : List String → Fields → Checked (Unit {0})
unfolding hashable
check_all [] checks = ok tt
check_all (c ∷ cs) checks = check_check (get_field c checks) >> check_all cs checks

abbrev pub text_field : String → Fields → Option String
text_field k fs = elim (get_field k fs) [ some (str s) ↦ some s | _ ↦ none ]

-- `type(ordinal) is int and ordinal == expected`
abbrev is_ordinal : ℕ → Option Value → Bool
is_ordinal n (some (int (pos m))) = nat_beq m n
is_ordinal n _ = false

abbrev pub dict_field : String → Fields → Option Fields
dict_field k fs = elim (get_field k fs) [ some (dict d) ↦ some d | _ ↦ none ]

abbrev pub or_refuse : {A : Type 0} → Option A → Checked A
or_refuse none = err value_error
or_refuse (some a) = ok a

unfoldable pub check_model : ℕ → List String → Fields → Checked String
unfolding check_all
check_model ordinal seen model = or_refuse (text_field "model_id" model) >>= λ id.
    refuse_if (is_blank id) value_error
    >> refuse_if (contains id seen) value_error
    >> require (is_ordinal ordinal (get_field "ordinal" model)) value_error
    >> or_refuse (dict_field "checks" model)
    >>= λ checks.
        require (exact_keys checks) value_error >> check_all expected_capabilities checks >> ok id

-- The loop over the models: `ordinal` is that of the next one, `seen` the ids before it.
unfoldable pub check_models : ℕ → List String → Items → Checked (Dict Fields)
unfolding check_model
check_models ordinal seen nil = ok []
check_models ordinal seen (cons (dict model) rest) = check_model ordinal seen model >>= λ id.
    check_models (suc ordinal) (id ∷ seen) rest >>= λ models. ok ((id, model) ∷ models)
check_models ordinal seen (cons _ rest) = err value_error

abbrev pub count : Items → ℕ
count nil = 0
count (cons v vs) = suc (count vs)

abbrev pub models_of : Fields → Checked Items
models_of doc = elim (get_field "models" doc) [
  | some (list vs) ↦ require (nat_beq (count vs) 17) value_error >> ok vs
  | _ ↦ err value_error
]

abbrev pub manifest_sha256 : String
manifest_sha256 = "e208f0e8565815020e5718191f61075f1eb95282052c75c4ca0a80ed07c12ed6"

abbrev pub frozen_core_blob : String
frozen_core_blob = "0fee0e1c5c1a1548361965ac51eacdeba62bfe8a"

-- The constructor. The dict by model id is built from the models in order, whose ids differ once
-- `_validate` has returned, so it is made in the same pass.
unfoldable pub make_gate : Value → Checked (Dict Fields)
unfolding check_models
make_gate (dict doc) =
    require (field_is "contract_version" "jamp-17-capability-v1" doc) value_error
    >> require (seventeen "expected_models" doc && seventeen "executed_models" doc) value_error
    >> require
        (one_hundred_seventy "expected_checks" doc && one_hundred_seventy "executed_checks" doc)
        value_error
    >> require (field_is "canonical_manifest_sha256" manifest_sha256 doc) value_error
    >> require (field_is "frozen_core_blob" frozen_core_blob doc) value_error
    >> models_of doc
    >>= check_models 1 []
make_gate _ = err value_error

abbrev or_end : Option Fields → Fields
or_end none = end
or_end (some fs) = fs

-- The raw status of a capability is VERIFIED. What is read here are dicts in a document that was
-- validated; a capability that is not there has an empty one.
abbrev pub is_verified_raw : Fields → String → Bool
is_verified_raw model capability =
    field_is "raw_status" "VERIFIED"
      (or_end (dict_field capability (or_end (dict_field "checks" model))))

unfoldable pub evaluate_model : Dict Fields → List String → String → Bool
evaluate_model models required id = elim (lookup id models) [
  | none ↦ false
  | some model ↦ all (is_verified_raw model) required
]

abbrev pub keep : (String → Bool) → List String → List String
keep p [] = []
keep p (x ∷ xs) = let rest = keep p xs in if p x then x ∷ rest else rest

unfoldable pub get_eligible_models : Dict Fields → List String → List String
unfolding evaluate_model
get_eligible_models models required = keep (evaluate_model models required) (keys models)
