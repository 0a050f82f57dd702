-- ===== src/Verdict/Schema.antt =====
-- src/jamp/research/verdict_v0/schema.py: the records, and the projections that are hashed. The gate's
-- result is that of src/jamp/research/specification_gate.py.
use jamp.Prelude.{
  String, Bool, Option, none, some, List, [], ◌∷◌, map, ok, ◌>>=◌, ◌==◌, if◌then◌else◌,
}
use mathlib.Core.List.{◌++◌ as append}
use jamp.Prelude.Text.{codes}
use jamp.Prelude.Sort.{leb_text, sort}
use jamp.Canonical.{
  Value, null, bool, str, list, dict, Items, nil, cons, Fields, end, field, text, Hasher, Canonical,
  canonical_bytes,
}
use jamp.Verdict.Aggregation.{VerdictStatus, verified, contradicted, inconclusive, refuse}
use jamp.Verdict.Stages.{
  UnknownReason, evidence_class_absent, selector_unresolvable, observed_inconclusive, Outcome,
  answer, unknown, CriterionResult,
}

pub data GateStatus : Type 0 where
  pass fail unknown_gate : GateStatus

pub record SpecificationRef : Type 0 where
  pub spec_id : String
  pub spec_version : String
  pub spec_hash : String

pub record Diagnostic : Type 0 where
  pub code : String
  pub artifact_ref : String
  pub requirement : String
  pub description : String

pub record GateResult : Type 0 where
  pub status : GateStatus
  pub spec_ref : SpecificationRef
  pub validated_hashes : List String
  pub diagnostics : List Diagnostic
  pub gate_contract_version : String

pub record SpecGateResult : Type 0 where
  pub spec_ref : String
  pub spec_valid : Bool
  pub gate_version : String
  pub gate_sha256 : String
  pub gate_report_sha256 : String

pub record Verdict : Type 0 where
  pub verdict_version : String
  pub verdict_status : VerdictStatus
  pub claim_id : String
  pub spec_ref : String
  pub spec_gate_result : SpecGateResult
  pub criterion_set_ref : String
  pub evidence_bundle_ref : String
  pub aggregation_rule_id : String
  pub aggregation_rule_version : String
  pub aggregation_rule_sha256 : String
  pub evaluator_version : String
  pub evaluator_sha256 : String
  pub criterion_results : List CriterionResult
  pub created_at : String
  pub verdict_id : String

-- A dict, and a list, of the values given.
abbrev pub entries : List (String × Value) → Fields
entries [] = end
entries ((k, v) ∷ rest) = field (text k) v (entries rest)

abbrev pub obj : List (String × Value) → Value
obj kvs = dict (entries kvs)

abbrev pub items : List Value → Items
items [] = nil
items (v ∷ vs) = cons v (items vs)

abbrev status_name : VerdictStatus → String
status_name verified = "VERIFIED"
status_name contradicted = "CONTRADICTED"
status_name inconclusive = "INCONCLUSIVE"
status_name refuse = "REFUSE"

abbrev pub reason_name : UnknownReason → String
reason_name evidence_class_absent = "evidence_class_absent"
reason_name selector_unresolvable = "selector_unresolvable"
reason_name observed_inconclusive = "observed_inconclusive"

abbrev outcome_value : Outcome → Value
outcome_value (answer b) = bool b
outcome_value unknown = str "unknown"

abbrev reason_value : Option UnknownReason → Value
reason_value none = null
reason_value (some r) = str (reason_name r)

-- `hashlib.sha256(DOMAIN + canonical_bytes(projection)).hexdigest()`
unfoldable pub domain_hash : Hasher → String → Value → Canonical String
domain_hash h domain v =
    canonical_bytes h v >>= λ bytes. ok (h.sha256 (append (codes domain) bytes))

-- The key `(code, field)`, whose field is never `None` where `evaluate` calls this.
abbrev leb_diagnostic : String × String → String × String → Bool
leb_diagnostic (a, b) (c, d) = if a == c then leb_text b d else leb_text a c

unfoldable pub compute_gate_report_sha256 :
    Hasher → String → String → String → Bool → List (String × String) → Canonical String
unfolding domain_hash
compute_gate_report_sha256 h spec_ref gate_sha256 gate_version spec_valid diagnostics =
    domain_hash h "jamp:gate-report:v0:" (
      obj (
        ("spec_ref", str spec_ref)
        ∷ ("gate_sha256", str gate_sha256)
        ∷ ("gate_version", str gate_version)
        ∷ ("spec_valid", bool spec_valid)
        ∷ (
          "diagnostics",
          list (
              items (
                map (λ (d : String × String). obj (("code", str d.0) ∷ ("field", str d.1) ∷ []))
                  (sort leb_diagnostic diagnostics))),
        )
        ∷ []))

abbrev result_value : CriterionResult → Value
result_value r = obj (
    ("criterion_ref", str r.criterion_ref)
    ∷ ("result", str r.result)
    ∷ (
      "evaluation_trace",
      obj (
          ("criterion_evaluator_sha256", str r.evaluation_trace.criterion_evaluator_sha256)
          ∷ ("evidence_selector_sha256", str r.evaluation_trace.evidence_selector_sha256)
          ∷ ("selector_output", dict r.evaluation_trace.selector_output)
          ∷ ("predicate_result", outcome_value r.evaluation_trace.predicate_result)
          ∷ []),
    )
    ∷ ("unknown_reason", reason_value r.unknown_reason)
    ∷ [])

-- `created_at` and `verdict_id` are no part of the identity.
unfoldable pub compute_verdict_id : Hasher → Verdict → Canonical String
unfolding domain_hash
compute_verdict_id h v = domain_hash h "jamp:verdict:v0:" (
    obj (
      ("verdict_version", str v.verdict_version)
      ∷ ("verdict_status", str (status_name v.verdict_status))
      ∷ ("claim_id", str v.claim_id)
      ∷ ("spec_ref", str v.spec_ref)
      ∷ (
        "spec_gate_result",
        obj (
            ("spec_ref", str v.spec_gate_result.spec_ref)
            ∷ ("spec_valid", bool v.spec_gate_result.spec_valid)
            ∷ ("gate_version", str v.spec_gate_result.gate_version)
            ∷ ("gate_sha256", str v.spec_gate_result.gate_sha256)
            ∷ ("gate_report_sha256", str v.spec_gate_result.gate_report_sha256)
            ∷ []),
      )
      ∷ ("criterion_set_ref", str v.criterion_set_ref)
      ∷ ("evidence_bundle_ref", str v.evidence_bundle_ref)
      ∷ ("aggregation_rule_id", str v.aggregation_rule_id)
      ∷ ("aggregation_rule_version", str v.aggregation_rule_version)
      ∷ ("aggregation_rule_sha256", str v.aggregation_rule_sha256)
      ∷ ("evaluator_version", str v.evaluator_version)
      ∷ ("evaluator_sha256", str v.evaluator_sha256)
      ∷ ("criterion_results", list (items (map result_value v.criterion_results)))
      ∷ []))

unfoldable pub compute_claim_id : Hasher → String → String → Canonical String
unfolding domain_hash
compute_claim_id h spec_ref criterion_set_ref =
    domain_hash h "jamp:claim:v0:"
      (obj (("spec_ref", str spec_ref) ∷ ("criterion_set_ref", str criterion_set_ref) ∷ []))

-- On a rule with the four parts given.
unfoldable pub compute_aggregation_rule_sha256 :
    Hasher → String → String → Value → Value → Canonical String
unfolding domain_hash
compute_aggregation_rule_sha256 h rule_id rule_version preconditions procedure =
    canonical_bytes h procedure >>= λ bytes. domain_hash h "jamp:aggregation-rule:v0:" (
      obj (
        ("rule_id", str rule_id)
        ∷ ("rule_version", str rule_version)
        ∷ ("preconditions", preconditions)
        ∷ ("decision_procedure", procedure)
        ∷ ("decision_procedure_sha256", str (h.sha256 bytes))
        ∷ []))
