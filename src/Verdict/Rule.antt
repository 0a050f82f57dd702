-- ===== src/Verdict/Rule.antt =====
-- The frozen rule of src/jamp/research/verdict_v0/aggregation.py as data with a meaning of its own,
-- and the aggregation against it.
use jamp.Prelude.{
  String, ◌≡◌, refl, Bool, true, false, not, ◌&&◌, List, [], ◌∷◌, Except, ok, err, any, all, ◌==◌,
  arith, eq_iff, if◌then◌else◌, ◌↔◌, Option, none, some, ◌≢◌, sym, subst,
}
use jamp.Verdict.Aggregation.{
  VerdictStatus, verified, contradicted, inconclusive, refuse, EvaluationError, in_vocabulary,
  aggregate, no_class_matched,
}

-- The conditions of `FROZEN_RULE["decision_procedure"]`.
pub data Condition : Type 0 where
  spec_invalid no_criteria : Condition
  any_is all_are : String → Condition

abbrev is_empty : List String → Bool
is_empty [] = true
is_empty (v ∷ vs) = false

pub holds : Condition → Bool → List String → Bool
holds spec_invalid valid values = not valid
holds no_criteria valid values = valid && is_empty values
holds (any_is r) valid values = valid && any (λ v. v == r) values
holds (all_are r) valid values = valid && all (λ v. v == r) values

abbrev pub Procedure : Type 0
Procedure = List (Condition × VerdictStatus)

-- The first condition that holds decides.
pub decide_by : Procedure → Bool → List String → Option VerdictStatus
unfolding holds
decide_by [] valid values = none
decide_by ((c, s) ∷ rest) valid values =
    if holds c valid values then some s else decide_by rest valid values

abbrev pub frozen_procedure : Procedure
frozen_procedure =
    (spec_invalid, refuse)
    ∷ (no_criteria, refuse)
    ∷ (any_is "FAIL", contradicted)
    ∷ (any_is "UNKNOWN", inconclusive)
    ∷ (all_are "PASS", verified)
    ∷ []

-- Results in the vocabulary.
abbrev pub Known : List String → Type 0
Known values = any (λ x. not (in_vocabulary x)) values ≡ false

abbrev pub as_option : Except EvaluationError VerdictStatus → Option VerdictStatus
as_option (ok s) = some s
as_option (err e) = none

-- On results in the vocabulary the code decides as the frozen rule says, first condition first.
pub aggregate-eq-decide_by :
    (valid : Bool) (values : List String)
    → Known values
    → as_option (aggregate valid values) ≡ decide_by frozen_procedure valid values
unfolding aggregate decide_by
aggregate-eq-decide_by false values k = refl
aggregate-eq-decide_by true [] k = refl
aggregate-eq-decide_by true (v ∷ vs) k = ground arith

passes :
    (values : List String)
    → Known values
    → any (λ x. x == "FAIL") values ≡ false
    → any (λ x. x == "UNKNOWN") values ≡ false
    → all (λ x. x == "PASS") values ≡ true
passes [] k f u = refl
passes (v ∷ vs) k f u = ground (arith, passes vs)

-- Whatever the results are, the aggregation never raises the error of its last line.
pub aggregate-ne-no_class_matched :
    (valid : Bool) (values : List String) → aggregate valid values ≢ err no_class_matched
unfolding aggregate
aggregate-ne-no_class_matched false values = λ e. cc e
aggregate-ne-no_class_matched true [] = λ e. cc e
aggregate-ne-no_class_matched true (v ∷ vs) = ground (arith, passes (v ∷ vs))

pass_alone :
    (v : String)
    → (v == "PASS") ≡ true
    → (not (in_vocabulary v) ≡ false) × ((v == "FAIL") ≡ false) × ((v == "UNKNOWN") ≡ false)
pass_alone v h =
    subst
      (λ x. (not (in_vocabulary x) ≡ false) × ((x == "FAIL") ≡ false) × ((x == "UNKNOWN") ≡ false))
      (sym ((eq_iff v "PASS").0 h)) (refl, refl, refl)

passes-none :
    (values : List String)
    → all (λ x. x == "PASS") values ≡ true
    → (any (λ x. not (in_vocabulary x)) values ≡ false)
      × (any (λ x. x == "FAIL") values ≡ false)
      × (any (λ x. x == "UNKNOWN") values ≡ false)
passes-none [] h = (refl, refl, refl)
passes-none (v ∷ vs) h = ground (arith, pass_alone v, passes-none vs)

-- The verdict is VERIFIED exactly if the specification is valid, there is a criterion, and every
-- criterion passed.
pub aggregate-verified :
    (valid : Bool) (values : List String)
    → (aggregate valid values ≡ ok verified)
      ↔ ((valid ≡ true) × (values ≢ []) × (all (λ x. x == "PASS") values ≡ true))
unfolding aggregate
aggregate-verified false values = (λ e. cc e, λ h. cc h.0)
aggregate-verified true [] = (λ e. cc e, λ h. absurd (h.1 refl))
aggregate-verified true (v ∷ vs) =
    ((λ e. (refl, (λ x. cc x), ground arith)), (λ h. ground (arith, passes-none (v ∷ vs) h.2)))
