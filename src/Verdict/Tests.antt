-- ===== src/Verdict/Tests.antt =====
-- Aggregation, criteria and a whole evaluation on concrete inputs.
use jamp.Prelude.{String, ◌≡◌, refl, true, false, none, some, List, [], ◌∷◌, Except, ok, err}
use jamp.Prelude.Int.{pos, leb_ℤ}
use jamp.Prelude.Text.{is_sha256}
use jamp.Prelude.Sort.{sort}
use jamp.Canonical.{
  Value, str, int, list, dict, nil, cons, Fields, end, field, text, normalize, canonical_bytes,
}
use jamp.Sample.{sample_hasher, sample_sha256, write}
use jamp.Verdict.Aggregation.{verified, contradicted, aggregate}
use jamp.Verdict.Rule.{as_option, decide_by, frozen_procedure, aggregate-eq-decide_by}
use jamp.Verdict.Stages.{
  whole, Order, unknown, CriterionResult, select, evaluate_threshold, hashable, evaluate_criterion,
}
use jamp.Verdict.Schema.{
  pass, SpecificationRef, Verdict, domain_hash, compute_gate_report_sha256, compute_verdict_id,
  compute_claim_id, compute_aggregation_rule_sha256,
}
use jamp.Verdict.Checks.{
  Request, frozen_rule, is_frozen_rule, check_items, check_criterion_set, check_closures,
  check_gate, check_evidence,
}
use jamp.Verdict.Evaluate.{gate_record, evaluate_criteria, bijective, draft, seal, judge, evaluate}
use jamp.Verdict.Verified.{Upheld, evaluate-Upheld}

abbrev mixed : List String
mixed = "PASS" ∷ "UNKNOWN" ∷ "FAIL" ∷ []

aggregate-mixed : aggregate true mixed ≡ ok contradicted
unfolding aggregate
aggregate-mixed = refl

aggregate-eq-decide_by_example :
    as_option (aggregate true mixed) ≡ decide_by frozen_procedure true mixed
aggregate-eq-decide_by_example = aggregate-eq-decide_by true mixed refl

abbrev by_value : Order
by_value (whole a) (whole b) = leb_ℤ a b
by_value _ _ = false

abbrev sha : String
sha = "aaaaaaaaaaaaaaaaaaaaaaaaaaaaaaaaaaaaaaaaaaaaaaaaaaaaaaaaaaaaaaaa"

abbrev at_least_three : Fields
at_least_three = field (text "criterion_ref") (str sha) (
    field (text "predicate")
      (dict (field (text "op") (str ">=") (field (text "threshold") (int (pos 3)) end))) end)

abbrev measured : Fields
measured =
    field (text "bundle_ref") (str sha)
      (field (text "class") (str "scalar") (field (text "value") (int (pos 5)) end))

-- The value that is returned.
abbrev result_or : {E A : Type 0} → A → Except E A → A
result_or d (ok a) = a
result_or d (err e) = d

abbrev no_result : CriterionResult
no_result = record {
  criterion_ref = "";
  result = "";
  evaluation_trace = record {
    criterion_evaluator_sha256 = "";
    evidence_selector_sha256 = "";
    selector_output = end;
    predicate_result = unknown;
  };
  unknown_reason = none;
}

abbrev met : CriterionResult
unfolding evaluate_criterion select evaluate_threshold hashable
met = result_or no_result (evaluate_criterion by_value sha at_least_three measured sha sha)

is_met : evaluate_criterion by_value sha at_least_three measured sha sha ≡ ok met
unfolding evaluate_criterion select evaluate_threshold hashable
is_met = refl

passes : met.result ≡ "PASS"
unfolding met
passes = refl

abbrev one_criterion : Value
one_criterion = dict (
    field (text "criterion_set_ref") (str sha)
      (field (text "criteria") (list (cons (dict at_least_three) nil)) end))

abbrev specification : SpecificationRef
specification = record { spec_id = "s"; spec_version = "1"; spec_hash = sha }

abbrev request : Request
request = record {
  expected_spec_ref = specification;
  gate_result = record {
    status = pass;
    spec_ref = specification;
    validated_hashes = [];
    diagnostics = [];
    gate_contract_version = "0.1.0";
  };
  gate_sha256 = some sha;
  selector_sha256 = some sha;
  criterion_evaluator_sha256 = some sha;
  aggregation_evaluator_sha256 = some sha;
  criterion_set = one_criterion;
  evidence = dict measured;
  rule = frozen_rule;
}

abbrev no_verdict : Verdict
no_verdict = record {
  verdict_version = "";
  verdict_status = contradicted;
  claim_id = "";
  spec_ref = "";
  spec_gate_result = record {
    spec_ref = "";
    spec_valid = false;
    gate_version = "";
    gate_sha256 = "";
    gate_report_sha256 = "";
  };
  criterion_set_ref = "";
  evidence_bundle_ref = "";
  aggregation_rule_id = "";
  aggregation_rule_version = "";
  aggregation_rule_sha256 = "";
  evaluator_version = "";
  evaluator_sha256 = "";
  criterion_results = [];
  created_at = "";
  verdict_id = "";
}

abbrev given : Verdict
given = result_or no_verdict (evaluate sample_hasher by_value "now" request)

is_given : evaluate sample_hasher by_value "now" request ≡ ok given
unfolding evaluate judge seal draft bijective evaluate_criteria gate_record check_evidence
    check_gate check_closures check_items check_criterion_set is_frozen_rule
    compute_aggregation_rule_sha256 compute_claim_id compute_verdict_id compute_gate_report_sha256
    domain_hash evaluate_criterion select evaluate_threshold hashable aggregate is_sha256 sort
    canonical_bytes normalize write sample_sha256
is_given = refl

is_verified : given.verdict_status ≡ verified
unfolding evaluate judge seal draft bijective evaluate_criteria gate_record check_evidence
    check_gate check_closures check_items check_criterion_set is_frozen_rule
    compute_aggregation_rule_sha256 compute_claim_id compute_verdict_id compute_gate_report_sha256
    domain_hash evaluate_criterion select evaluate_threshold hashable aggregate is_sha256 sort
    canonical_bytes normalize write sample_sha256
is_verified = refl

evaluate-Upheld_example : Upheld by_value request
evaluate-Upheld_example =
    evaluate-Upheld sample_hasher by_value "now" request given is_given is_verified
