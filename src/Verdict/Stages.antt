-- ===== src/Verdict/Stages.antt =====
-- src/jamp/research/verdict_v0/stages.py: the scalar selector, the numeric threshold and the result
-- of one criterion. Python's comparison of two numbers is a parameter, since a number may be a float.
use jamp.Prelude.{
  ℕ, String, Bool, true, false, not, ◌&&◌, ◌||◌, Option, none, some, Except, ok, err, ◌>>=◌, ◌==◌,
  if◌then◌else◌,
}
use jamp.Prelude.Int.{ℤ}
use jamp.Canonical.{
  Value, null, bool, int, float, str, list, tuple, dict, unsupported, Items, nil, cons, Fields, end,
  field, text,
}
use jamp.Ledger.{get_field, has_field}

-- A number that is no `bool`.
pub data Number : Type 0 where
  whole : ℤ → Number
  double : ℕ → Number

abbrev pub as_number : Value → Option Number
as_number (int n) = some (whole n)
as_number (float bits) = some (double bits)
as_number _ = none

-- `a <= b` on numbers.
abbrev pub Order : Type 0
Order = Number → Number → Bool

-- The exceptions of a selector and of an evaluator.
pub data Failure : Type 0 where
  key_error lookup_error value_error type_error : Failure

pub data UnknownReason : Type 0 where
  evidence_class_absent selector_unresolvable observed_inconclusive : UnknownReason

-- A predicate's result: `True`, `False` or "unknown".
pub data Outcome : Type 0 where
  answer : Bool → Outcome
  unknown : Outcome

abbrev pub is_text : String → Value → Bool
is_text s (str t) = t == s
is_text s _ = false

-- `d.get(k) == s` for a text `s`.
abbrev pub field_is : String → String → Fields → Bool
field_is k s fs = elim (get_field k fs) [ none ↦ false | some v ↦ is_text s v ]

-- `ScalarSelector.select`
unfoldable pub select : Fields → String → Except Failure Value
select evidence selector =
    if not (has_field "class" evidence)
    then err lookup_error
    else if not (field_is "class" "scalar" evidence)
    then err value_error
    else if not (selector == "value")
    then err key_error
    else elim (get_field "value" evidence) [ none ↦ err key_error | some v ↦ ok v ]

-- Whether a value can be looked up in a set; an object of another class is taken to hash.
unfoldable mutual
  pub hashable : Value → Bool
  hashable (list xs) = false
  hashable (dict fs) = false
  hashable (tuple xs) = all_hashable xs
  hashable null = true
  hashable (bool b) = true
  hashable (int n) = true
  hashable (float bits) = true
  hashable (str s) = true
  hashable unsupported = true

  pub all_hashable : Items → Bool
  all_hashable nil = true
  all_hashable (cons x xs) = hashable x && all_hashable xs

-- `op not in {">=", "<="}` hashes `op`; a missing key is `None`.
abbrev pub or_null : Option Value → Value
or_null none = null
or_null (some v) = v

abbrev pub compared : Order → Value → Number → Number → Outcome
compared le op observed threshold =
    answer (if is_text ">=" op then le threshold observed else le observed threshold)

abbrev pub both_numbers :
    Order → Value → Option Number → Option Number → Outcome × Option UnknownReason
both_numbers le op (some a) (some b) = (compared le op a b, none)
both_numbers le op _ _ = (unknown, some observed_inconclusive)

abbrev pub threshold_outcome :
    Order → Fields → Value → Except Failure (Outcome × Option UnknownReason)
threshold_outcome le predicate observed =
    let op = or_null (get_field "op" predicate) in
    if not (hashable op)
    then err type_error
    else if not (is_text ">=" op || is_text "<=" op)
    then ok (unknown, some observed_inconclusive)
    else ok (
        both_numbers le op (as_number observed)
          (as_number (or_null (get_field "threshold" predicate))))

abbrev pub predicate_outcome :
    Order → Value → Value → Except Failure (Outcome × Option UnknownReason)
predicate_outcome le (dict predicate) observed = threshold_outcome le predicate observed
predicate_outcome le _ observed = ok (unknown, some observed_inconclusive)

-- `NumericThresholdEvaluator.evaluate`
unfoldable pub evaluate_threshold :
    Order → Fields → Value → Except Failure (Outcome × Option UnknownReason)
unfolding hashable
evaluate_threshold le criterion observed =
    predicate_outcome le (or_null (get_field "predicate" criterion)) observed

pub record EvaluationTrace : Type 0 where
  pub criterion_evaluator_sha256 : String
  pub evidence_selector_sha256 : String
  pub selector_output : Fields
  pub predicate_result : Outcome

-- `reasoning` is always `None`.
pub record CriterionResult : Type 0 where
  pub criterion_ref : String
  pub result : String
  pub evaluation_trace : EvaluationTrace
  pub unknown_reason : Option UnknownReason

-- What the `try` of `evaluate_criterion` leaves: the outcome, its reason and the observed value. An
-- exception of the selector becomes a reason; one of the evaluator is let through.
abbrev pub judged :
    Except Failure (Outcome × Option UnknownReason)
    → Value
    → Except Failure (Outcome × Option UnknownReason × Value)
judged (ok (o, r)) v = ok (o, r, v)
judged (err e) v = err e

abbrev pub observe :
    Order → Fields → Except Failure Value → Except Failure (Outcome × Option UnknownReason × Value)
observe le criterion (ok v) = judged (evaluate_threshold le criterion v) v
observe le criterion (err key_error) = ok (unknown, some selector_unresolvable, null)
observe le criterion (err lookup_error) = ok (unknown, some evidence_class_absent, null)
observe le criterion (err value_error) = ok (unknown, some selector_unresolvable, null)
observe le criterion (err type_error) = err type_error

abbrev or_inconclusive : Option UnknownReason → Option UnknownReason
or_inconclusive none = some observed_inconclusive
or_inconclusive (some r) = some r

-- `criterion.get("selector", "value")`, which is a text wherever `evaluate` calls this.
abbrev pub selector_of : Fields → String
selector_of criterion = elim (get_field "selector" criterion) [ some (str s) ↦ s | _ ↦ "value" ]

abbrev output_of : Value → String → Value → Fields
output_of label selector observed =
    field (text "class") label
      (field (text "selector") (str selector) (field (text "observed") observed end))

abbrev class_or : Value → Fields → Value
class_or d evidence = elim (get_field "class" evidence) [ none ↦ d | some v ↦ v ]

abbrev pub result_of :
    String
    → Fields
    → Fields
    → String
    → String
    → Outcome × Option UnknownReason × Value
    → CriterionResult
result_of ref criterion evidence selector_sha evaluator_sha (unknown, reason, observed) = record {
  criterion_ref = ref;
  result = "UNKNOWN";
  evaluation_trace = record {
    criterion_evaluator_sha256 = evaluator_sha;
    evidence_selector_sha256 = selector_sha;
    selector_output =
        output_of (class_or (str "unknown") evidence) (selector_of criterion) observed;
    predicate_result = unknown;
  };
  unknown_reason = or_inconclusive reason;
}
result_of ref criterion evidence selector_sha evaluator_sha (answer b, reason, observed) = record {
  criterion_ref = ref;
  result = if b then "PASS" else "FAIL";
  evaluation_trace = record {
    criterion_evaluator_sha256 = evaluator_sha;
    evidence_selector_sha256 = selector_sha;
    selector_output = output_of (class_or null evidence) (selector_of criterion) observed;
    predicate_result = answer b;
  };
  unknown_reason = none;
}

-- `evaluate_criterion`, on a criterion whose reference is `ref`.
unfoldable pub evaluate_criterion :
    Order → String → Fields → Fields → String → String → Except Failure CriterionResult
unfolding select evaluate_threshold
evaluate_criterion le ref criterion evidence selector_sha evaluator_sha =
    observe le criterion (select evidence (selector_of criterion)) >>= λ o.
    ok (result_of ref criterion evidence selector_sha evaluator_sha o)
