-- ===== src/Verdict/Criterion.antt =====
-- What the result of one criterion says of the evidence.
use jamp.Prelude.{
  String, ◌≡◌, refl, true, false, not, ◌||◌, Option, none, some, Except, ok, err, ◌==◌,
  if◌then◌else◌, ◌⊎◌, inl, inr, arith, Option-cases, ap, sym, ◌∙◌, ◌≢◌, eq_iff, subst, ok-of-bind,
}
use jamp.Canonical.{Value, dict, Fields}
use jamp.Ledger.{get_field}
use jamp.Verdict.Stages.{
  Number, as_number, Order, Failure, key_error, lookup_error, value_error, type_error,
  UnknownReason, observed_inconclusive, Outcome, answer, unknown, is_text, field_is, select,
  evaluate_threshold, CriterionResult, selector_of, evaluate_criterion, both_numbers,
  threshold_outcome, predicate_outcome, or_null, observe, judged, hashable, result_of,
}

-- The comparison that a predicate's `op` asks for.
abbrev pub Compares : Order → Value → Number → Number → Type 0
Compares le op observed threshold =
    ((is_text ">=" op ≡ true) × (le threshold observed ≡ true))
    ⊎ ((is_text "<=" op ≡ true) × (le observed threshold ≡ true))

-- The evidence is a scalar, and its number meets the threshold of the criterion's predicate.
pub record Meets (le : Order) (criterion evidence : Fields) : Type 0 where
  pub scalar : field_is "class" "scalar" evidence ≡ true
  pub predicate : Fields
  pub is_predicate : get_field "predicate" criterion ≡ some (dict predicate)
  pub value : Value
  pub is_value : get_field "value" evidence ≡ some value
  pub observed : Number
  pub is_observed : as_number value ≡ some observed
  pub limit : Number
  pub is_limit : as_number (or_null (get_field "threshold" predicate)) ≡ some limit
  pub compares : Compares le (or_null (get_field "op" predicate)) observed limit

select-value :
    (evidence : Fields) (selector : String) (v : Value)
    → select evidence selector ≡ ok v
    → (field_is "class" "scalar" evidence ≡ true) × (get_field "value" evidence ≡ some v)
unfolding select
select-value evidence selector v h = ground arith

numbers-compare :
    (le : Order) (op : Value) (a b : Option Number)
    → (is_text ">=" op || is_text "<=" op) ≡ true
    → (both_numbers le op a b).0 ≡ answer true
    → (x : Number) × (y : Number) × (a ≡ some x) × (b ≡ some y) × Compares le op x y
numbers-compare le op (some x) (some y) o h = (x, y, refl, refl, ground arith)
numbers-compare le op _ _ o h = absurd (cc h)

module _ (le : Order) (criterion evidence : Fields) where
  threshold-Meets :
      (predicate : Fields) (v : Value)
      → field_is "class" "scalar" evidence ≡ true
      → get_field "value" evidence ≡ some v
      → get_field "predicate" criterion ≡ some (dict predicate)
      → (o : Outcome × Option UnknownReason) → threshold_outcome le predicate v ≡ ok o
      → o.0 ≡ answer true
      → Meets le criterion evidence
  threshold-Meets predicate v s e p o h a =
      let op = or_null (get_field "op" predicate) in
      let limit = as_number (or_null (get_field "threshold" predicate)) in
      let (asked, same) = known_op op limit v o h a in
      let (x, y, ex, ey, c) = numbers-compare le op (as_number v) limit asked same in
      record {
        scalar = s;
        predicate = predicate;
        is_predicate = p;
        value = v;
        is_value = e;
        observed = x;
        is_observed = ex;
        limit = y;
        is_limit = ey;
        compares = c;
      }
    where
      known_op :
          (op : Value) (limit : Option Number) (v : Value) (o : Outcome × Option UnknownReason)
          → (if not (hashable op)
              then err type_error
              else if not (is_text ">=" op || is_text "<=" op)
              then ok (unknown, some observed_inconclusive)
              else ok (both_numbers le op (as_number v) limit))
            ≡ ok o
          → o.0 ≡ answer true
          → ((is_text ">=" op || is_text "<=" op) ≡ true)
            × ((both_numbers le op (as_number v) limit).0 ≡ answer true)
      known_op op limit v o h a = ground arith

  predicate-Meets :
      (p : Value) (v : Value)
      → field_is "class" "scalar" evidence ≡ true
      → get_field "value" evidence ≡ some v
      → get_field "predicate" criterion ≡ some p
      → (o : Outcome × Option UnknownReason) → predicate_outcome le p v ≡ ok o
      → o.0 ≡ answer true
      → Meets le criterion evidence
  predicate-Meets (dict predicate) v s e p o h a = threshold-Meets predicate v s e p o h a
  predicate-Meets _ v s e p o h a = absurd (ground arith)

judged-ok :
    (m : Except Failure (Outcome × Option UnknownReason)) (v : Value)
    (o : Outcome × Option UnknownReason × Value)
    → judged m v ≡ ok o
    → (x : Outcome × Option UnknownReason) × (m ≡ ok x) × (x.0 ≡ o.0)
judged-ok (ok (x, r)) v o h = ((x, r), refl, cc h)
judged-ok (err e) v o h = cc

different : (s t : String) → (s == t) ≡ false → s ≢ t
different s t e same = cc (sym e ∙ (eq_iff s t).1 same)

-- The three ways in which a result, its reason and the predicate's outcome fit together.
abbrev pub Consistent : CriterionResult → Type 0
Consistent r =
    ((r.result ≡ "PASS")
      × (r.unknown_reason ≡ none)
      × (r.evaluation_trace.predicate_result ≡ answer true))
    ⊎ ((r.result ≡ "FAIL")
        × (r.unknown_reason ≡ none)
        × (r.evaluation_trace.predicate_result ≡ answer false))
    ⊎ ((reason : UnknownReason) × (r.result ≡ "UNKNOWN")
        × (r.unknown_reason ≡ some reason)
        × (r.evaluation_trace.predicate_result ≡ unknown))

module _ (ref : String) (criterion evidence : Fields) (ssha esha : String) where
  abbrev made : Outcome × Option UnknownReason × Value → CriterionResult
  made = result_of ref criterion evidence ssha esha

  made-Consistent : (o : Outcome × Option UnknownReason × Value) → Consistent (made o)
  made-Consistent (answer true, reason, v) = inl (refl, refl, refl)
  made-Consistent (answer false, reason, v) = inr (inl (refl, refl, refl))
  made-Consistent (unknown, none, v) = inr (inr (observed_inconclusive, refl, refl, refl))
  made-Consistent (unknown, some reason, v) = inr (inr (reason, refl, refl, refl))

  made-pass :
      (o : Outcome × Option UnknownReason × Value) → (made o).result ≡ "PASS" → o.0 ≡ answer true
  made-pass (answer true, reason, v) h = refl
  made-pass (answer false, reason, v) h = absurd (different "FAIL" "PASS" refl h)
  made-pass (unknown, reason, v) h = absurd (different "UNKNOWN" "PASS" refl h)

  module _ (le : Order) where
    abbrev seen : Except Failure (Outcome × Option UnknownReason × Value)
    seen = observe le criterion (select evidence (selector_of criterion))

    evaluate_criterion-made :
        (r : CriterionResult)
        → evaluate_criterion le ref criterion evidence ssha esha ≡ ok r
        → (o : Outcome × Option UnknownReason × Value) × (seen ≡ ok o) × (made o ≡ r)
    unfolding evaluate_criterion
    evaluate_criterion-made r h =
        let (o, e, m) = ok-of-bind seen (λ o. ok (made o)) h in (o, e, cc m)

    -- Every result that is returned is PASS, FAIL or UNKNOWN; it has a reason exactly if it is
    -- UNKNOWN, and agrees with the predicate's outcome in the trace.
    pub evaluate_criterion-Consistent :
        (r : CriterionResult)
        → evaluate_criterion le ref criterion evidence ssha esha ≡ ok r
        → Consistent r
    evaluate_criterion-Consistent r h =
        let (o, e, m) = evaluate_criterion-made r h in subst Consistent m (made-Consistent o)

    observed-Meets :
        (s : Except Failure Value) (o : Outcome × Option UnknownReason × Value)
        → select evidence (selector_of criterion) ≡ s
        → observe le criterion s ≡ ok o
        → o.0 ≡ answer true
        → Meets le criterion evidence
    unfolding evaluate_threshold
    observed-Meets (ok v) o s e a =
        let (scalar, value) = select-value evidence (selector_of criterion) v s in
        elim (Option-cases (get_field "predicate" criterion)) [
          | inl missing ↦ absurd (ground arith)
          | inr (p, there) ↦
              let (x, ex, same) = judged-ok (predicate_outcome le p v) v o (rw there at e) in
              predicate-Meets le criterion evidence p v scalar value there x ex (same ∙ a)
        ]
    observed-Meets (err key_error) o s e a = cc
    observed-Meets (err lookup_error) o s e a = cc
    observed-Meets (err value_error) o s e a = cc
    observed-Meets (err type_error) o s e a = cc

    -- A criterion passes only if the evidence is a scalar whose number meets the threshold of the
    -- criterion's predicate.
    pub evaluate_criterion-Meets :
        (r : CriterionResult)
        → evaluate_criterion le ref criterion evidence ssha esha ≡ ok r
        → r.result ≡ "PASS"
        → Meets le criterion evidence
    evaluate_criterion-Meets r h pass =
        let (o, e, m) = evaluate_criterion-made r h in
        observed-Meets (select evidence (selector_of criterion)) o refl e
          (made-pass o (ap (λ (x : CriterionResult). x.result) m ∙ pass))
