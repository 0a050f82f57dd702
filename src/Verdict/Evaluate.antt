-- ===== src/Verdict/Evaluate.antt =====
-- `evaluate` of src/jamp/research/verdict_v0/evaluate.py. The clock is an argument.
use jamp.Prelude.{
  String, Bool, true, false, not, ◌&&◌, Option, none, some, List, [], ◌∷◌, map, Except, ok, err,
  ◌>>=◌, ◌>>◌, require, ◌==◌,
}
use jamp.Prelude.Dict.{contains}
use jamp.Canonical.{Fields, Hasher, Canonical}
use jamp.Verdict.Aggregation.{VerdictStatus, aggregate}
use jamp.Verdict.Stages.{Order, UnknownReason, CriterionResult, evaluate_criterion}
use jamp.Verdict.Schema.{
  Diagnostic, SpecGateResult, Verdict, reason_name, compute_gate_report_sha256, compute_verdict_id,
  compute_claim_id, compute_aggregation_rule_sha256,
}
use jamp.Verdict.Checks.{
  Stop, refused, failure, evaluation_error, canonicalization, criterion_result_invalid,
  criterion_results_not_bijective, aggregation_rule_mismatch, Step, preconditions,
  decision_procedure, is_frozen_rule, check_criterion_set, Request, Closures, check_closures,
  check_gate, check_evidence,
}

-- An exception of a callee.
abbrev pub lift : {E A : Type 0} → (E → Stop) → Except E A → Step A
lift f (ok a) = ok a
lift f (err e) = err (f e)

abbrev pub hashed : {A : Type 0} → Canonical A → Step A
hashed m = lift (λ _. canonicalization) m

-- `gate_record`
unfoldable pub gate_record : Hasher → Request → Closures → Bool → Step SpecGateResult
gate_record h q c valid =
    hashed (
      compute_gate_report_sha256 h q.expected_spec_ref.spec_hash c.gate
        q.gate_result.gate_contract_version valid
        (map (λ (d : Diagnostic). (d.code, d.requirement)) q.gate_result.diagnostics))
    >>= λ report. ok (record {
      spec_ref = q.expected_spec_ref.spec_hash;
      spec_valid = valid;
      gate_version = q.gate_result.gate_contract_version;
      gate_sha256 = c.gate;
      gate_report_sha256 = report;
    })

-- `_ALLOWED_UNKNOWN | {None}`
abbrev allowed_unknown : Option UnknownReason → Bool
allowed_unknown none = true
allowed_unknown (some r) =
    contains (reason_name r)
      ("evidence_class_absent" ∷ "selector_unresolvable" ∷ "observed_inconclusive" ∷ [])

-- The loop over the criteria.
unfoldable pub evaluate_criteria :
    Order → Closures → Fields → List (String × Fields) → Step (List CriterionResult)
evaluate_criteria le c evidence [] = ok []
evaluate_criteria le c evidence ((ref, criterion) ∷ rest) =
    lift failure (evaluate_criterion le ref criterion evidence c.selector c.criterion_evaluator)
    >>= λ r.
        require (allowed_unknown r.unknown_reason) (refused criterion_result_invalid)
        >> evaluate_criteria le c evidence rest
        >>= λ rs. ok (r ∷ rs)

-- `actual == expected`
abbrev same_refs : List String → List String → Bool
same_refs [] [] = true
same_refs (a ∷ rest) (b ∷ bs) = a == b && same_refs rest bs
same_refs _ _ = false

-- `len(xs) == len(set(xs))`
abbrev all_differ : List String → Bool
all_differ [] = true
all_differ (a ∷ rest) = not (contains a rest) && all_differ rest

abbrev pub refs_of : List CriterionResult → List String
refs_of rs = map (λ (r : CriterionResult). r.criterion_ref) rs

abbrev pub results_of : List CriterionResult → List String
results_of rs = map (λ (r : CriterionResult). r.result) rs

-- The ordered bijection between the criteria and their results.
unfoldable pub bijective : List (String × Fields) → List CriterionResult → Bool
bijective criteria rs =
    same_refs (refs_of rs) (map (λ (c : String × Fields). c.0) criteria) && all_differ (refs_of rs)

-- What `evaluate` has when the status is known.
pub record Judged : Type 0 where
  pub status : VerdictStatus
  pub gate : SpecGateResult
  pub criterion_set : String
  pub bundle : String
  pub results : List CriterionResult

-- `Verdict(**base)`
unfoldable pub draft : Request → Closures → Judged → String → String → String → String → Verdict
draft q c j rule_sha claim now id = record {
  verdict_version = "0.1.0";
  verdict_status = j.status;
  claim_id = claim;
  spec_ref = q.expected_spec_ref.spec_hash;
  spec_gate_result = j.gate;
  criterion_set_ref = j.criterion_set;
  evidence_bundle_ref = j.bundle;
  aggregation_rule_id = "standard-pass-fail-unknown";
  aggregation_rule_version = "0.1.0";
  aggregation_rule_sha256 = rule_sha;
  evaluator_version = "0.1.0";
  evaluator_sha256 = c.aggregation_evaluator;
  criterion_results = j.results;
  created_at = now;
  verdict_id = id;
}

unfoldable pub seal : Hasher → String → Request → Closures → Judged → Step Verdict
unfolding draft
seal h now q c j =
    hashed (
      compute_aggregation_rule_sha256 h "standard-pass-fail-unknown" "0.1.0" preconditions
        decision_procedure)
    >>= λ rule_sha.
        hashed (compute_claim_id h q.expected_spec_ref.spec_hash j.criterion_set) >>= λ claim.
        hashed (compute_verdict_id h (draft q c j rule_sha claim now "")) >>= λ id.
        ok (draft q c j rule_sha claim now id)

-- From the gate's answer to the status.
unfoldable pub judge : Hasher → Order → Request → Closures → Bool → Step Judged
judge h le q c valid =
    require (is_frozen_rule h q.rule) (refused aggregation_rule_mismatch)
    >> check_evidence q.evidence
    >>= λ e. check_criterion_set q.criterion_set >>= λ s. gate_record h q c valid >>= λ g.
        evaluate_criteria le c e.0 s.1 >>= λ rs.
        require (bijective s.1 rs) (refused criterion_results_not_bijective)
        >> lift evaluation_error (aggregate valid (results_of rs))
        >>= λ status.
            ok (record {
              status = status;
              gate = g;
              criterion_set = s.0;
              bundle = e.1;
              results = rs;
            })

unfoldable pub evaluate : Hasher → Order → String → Request → Step Verdict
evaluate h le now q = check_closures q >>= λ c.
    check_gate q.expected_spec_ref q.gate_result >>= λ valid.
    judge h le q c valid >>= λ j. seal h now q c j
