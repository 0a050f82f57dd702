-- ===== src/Verdict/Aggregation.antt =====
-- `apply_standard_pass_fail_unknown_v0` of src/jamp/research/verdict_v0/aggregation.py.
use jamp.Prelude.{
  String, Bool, true, false, not, ◌||◌, List, [], ◌∷◌, Except, ok, err, any, all, ◌==◌,
  if◌then◌else◌,
}

pub data VerdictStatus : Type 0 where
  verified contradicted inconclusive refuse : VerdictStatus

pub data EvaluationError : Type 0 where
  outside_vocabulary no_class_matched : EvaluationError

-- `value in {"PASS", "FAIL", "UNKNOWN"}`
abbrev pub in_vocabulary : String → Bool
in_vocabulary v = v == "PASS" || v == "FAIL" || v == "UNKNOWN"

-- The results of the criteria are the texts that `CriterionResult.result` holds.
unfoldable pub aggregate : Bool → List String → Except EvaluationError VerdictStatus
aggregate false values = ok refuse
aggregate true [] = ok refuse
aggregate true (v ∷ vs) =
    if any (λ x. not (in_vocabulary x)) (v ∷ vs)
    then err outside_vocabulary
    else if any (λ x. x == "FAIL") (v ∷ vs)
    then ok contradicted
    else if any (λ x. x == "UNKNOWN") (v ∷ vs)
    then ok inconclusive
    else if all (λ x. x == "PASS") (v ∷ vs)
    then ok verified
    else err no_class_matched
