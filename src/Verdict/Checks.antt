-- ===== src/Verdict/Checks.antt =====
-- The checks of `evaluate` in src/jamp/research/verdict_v0/evaluate.py, up to the criterion set. The text
-- of a refusal's detail is not modelled, its reason is.
use jamp.Prelude.{
  ℕ, String, Bool, true, false, ◌&&◌, Option, none, some, List, [], ◌∷◌, Except, ok, err, ◌>>=◌,
  ◌>>◌, require, refuse_if, nat_beq, ◌==◌, if◌then◌else◌,
}
use jamp.Prelude.Text.{is_sha256}
use jamp.Prelude.Dict.{contains}
use jamp.Canonical.{
  Value, bool, str, list, dict, Items, nil, cons, Fields, Hasher, Canonical, canonical_bytes,
}
use jamp.Ledger.{get_field}
use jamp.Verdict.Aggregation.{EvaluationError}
use jamp.Verdict.Stages.{Failure}
use jamp.Verdict.Schema.{
  pass, fail, unknown_gate, SpecificationRef, Diagnostic, GateResult, obj, items,
}

pub data RefusalReason : Type 0 where
  closure_incomplete gate_result_invalid spec_ref_mismatch gate_unknown : RefusalReason
  aggregation_rule_mismatch evidence_invalid criterion_set_invalid : RefusalReason
  criterion_result_invalid criterion_results_not_bijective : RefusalReason

-- An early end: a refusal that is returned, or an exception.
pub data Stop : Type 0 where
  refused : RefusalReason → Stop
  failure : Failure → Stop
  evaluation_error : EvaluationError → Stop
  canonicalization : Stop

abbrev pub Step : Type 0 → Type 0
Step A = Except Stop A

abbrev pub preconditions : Value
preconditions = obj (
    ("input_structure_valid", bool true)
    ∷ ("spec_ref_resolves", bool true)
    ∷ ("criterion_set_frozen", bool true)
    ∷ ("criterion_results_bijection", bool true)
    ∷ ("spec_gate_result_verifiable", bool true)
    ∷ [])

abbrev clause : String → String → Value
clause test status = obj (("if", str test) ∷ ("return", str status) ∷ [])

abbrev pub decision_procedure : Value
decision_procedure = list (
    items (
      clause "spec_valid == false" "REFUSE"
      ∷ clause "true ∧ criterion_count == 0" "REFUSE"
      ∷ clause "true ∧ any(result == FAIL)" "CONTRADICTED"
      ∷ clause "true ∧ any(result == UNKNOWN)" "INCONCLUSIVE"
      ∷ clause "true ∧ all(result == PASS)" "VERIFIED"
      ∷ []))

-- `FROZEN_RULE`
abbrev pub frozen_rule : Value
frozen_rule = obj (
    ("rule_id", str "standard-pass-fail-unknown")
    ∷ ("rule_version", str "0.1.0")
    ∷ ("preconditions", preconditions)
    ∷ ("decision_procedure", decision_procedure)
    ∷ [])

abbrev same_bytes : List ℕ → List ℕ → Bool
same_bytes [] [] = true
same_bytes (a ∷ rest) (b ∷ bs) = nat_beq a b && same_bytes rest bs
same_bytes _ _ = false

abbrev same_canonical : Canonical (List ℕ) → Canonical (List ℕ) → Bool
same_canonical (ok a) (ok b) = same_bytes a b
same_canonical _ _ = false

-- `is_frozen_rule`: a value with no canonical form is no frozen rule.
abbrev frozen_dict : Hasher → Value → Bool
frozen_dict h (dict fs) =
    same_canonical (canonical_bytes h (dict fs)) (canonical_bytes h frozen_rule)
frozen_dict h _ = false

unfoldable pub is_frozen_rule : Hasher → Value → Bool
is_frozen_rule = frozen_dict

abbrev valid_sha : Option String → Bool
valid_sha none = false
valid_sha (some s) = is_sha256 s

-- `is_valid_sha256` on a field of a dict.
abbrev sha_field : String → Fields → Option String
sha_field k fs = elim (get_field k fs) [
  | some (str s) ↦ if is_sha256 s then some s else none
  | _ ↦ none
]

abbrev or_refuse : {A : Type 0} → RefusalReason → Option A → Step A
or_refuse r none = err (refused r)
or_refuse r (some a) = ok a

abbrev as_dict : RefusalReason → Value → Step Fields
as_dict r (dict fs) = ok fs
as_dict r _ = err (refused r)

abbrev is_dict_field : String → Fields → Bool
is_dict_field k fs = elim (get_field k fs) [ some (dict d) ↦ true | _ ↦ false ]

-- `isinstance(item.get("selector", "value"), str)`
abbrev is_selector : Fields → Bool
is_selector fs = elim (get_field "selector" fs) [ none ↦ true | some (str s) ↦ true | _ ↦ false ]

-- One criterion of the set, with the references before it.
abbrev check_item : List String → Value → Step (String × Fields)
check_item refs v = as_dict criterion_set_invalid v >>= λ fs.
    or_refuse criterion_set_invalid (sha_field "criterion_ref" fs) >>= λ ref.
    refuse_if (contains ref refs) (refused criterion_set_invalid)
    >> require (is_dict_field "predicate" fs) (refused criterion_set_invalid)
    >> require (is_selector fs) (refused criterion_set_invalid)
    >> ok (ref, fs)

-- The loop of `_criterion_set`.
unfoldable pub check_items : List String → Items → Step (List (String × Fields))
check_items refs nil = ok []
check_items refs (cons v vs) =
    check_item refs v >>= λ c. check_items (c.0 ∷ refs) vs >>= λ cs. ok (c ∷ cs)

abbrev listed : Option Value → Step Items
listed (some (list vs)) = ok vs
listed _ = err (refused criterion_set_invalid)

-- `_criterion_set`
unfoldable pub check_criterion_set : Value → Step (String × List (String × Fields))
unfolding check_items
check_criterion_set v = as_dict criterion_set_invalid v >>= λ fs.
    or_refuse criterion_set_invalid (sha_field "criterion_set_ref" fs) >>= λ ref.
    listed (get_field "criteria" fs) >>= λ vs. check_items [] vs >>= λ cs. ok (ref, cs)

pub record Request : Type 0 where
  pub expected_spec_ref : SpecificationRef
  pub gate_result : GateResult
  pub gate_sha256 : Option String
  pub selector_sha256 : Option String
  pub criterion_evaluator_sha256 : Option String
  pub aggregation_evaluator_sha256 : Option String
  pub criterion_set : Value
  pub evidence : Value
  pub rule : Value

pub record Closures : Type 0 where
  pub gate : String
  pub selector : String
  pub criterion_evaluator : String
  pub aggregation_evaluator : String

abbrev closure : Option String → Step String
closure o = require (valid_sha o) (refused closure_incomplete) >> or_refuse closure_incomplete o

unfoldable pub check_closures : Request → Step Closures
check_closures q = closure q.gate_sha256 >>= λ a. closure q.selector_sha256 >>= λ b.
    closure q.criterion_evaluator_sha256 >>= λ c. closure q.aggregation_evaluator_sha256 >>= λ d.
    ok (record { gate = a; selector = b; criterion_evaluator = c; aggregation_evaluator = d })

abbrev same_ref : SpecificationRef → SpecificationRef → Bool
same_ref a b =
    a.spec_id == b.spec_id && a.spec_version == b.spec_version && a.spec_hash == b.spec_hash

abbrev is_nil : List Diagnostic → Bool
is_nil [] = true
is_nil (d ∷ ds) = false

-- Whether the gate passed; a gate result that is unknown, or whose status and diagnostics do not
-- fit, is refused.
unfoldable pub check_gate : SpecificationRef → GateResult → Step Bool
check_gate expected g =
    require (is_sha256 expected.spec_hash && same_ref g.spec_ref expected)
      (refused spec_ref_mismatch)
    >> elim g.status [
      | unknown_gate ↦ err (refused gate_unknown)
      | pass ↦ require (is_nil g.diagnostics) (refused gate_result_invalid) >> ok true
      | fail ↦ refuse_if (is_nil g.diagnostics) (refused gate_result_invalid) >> ok false
    ]

-- `evidence`, and its bundle's reference.
unfoldable pub check_evidence : Value → Step (Fields × String)
check_evidence v = as_dict evidence_invalid v >>= λ fs.
    or_refuse evidence_invalid (sha_field "bundle_ref" fs) >>= λ ref. ok (fs, ref)
