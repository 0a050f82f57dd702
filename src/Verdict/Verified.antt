-- ===== src/Verdict/Verified.antt =====
-- What a verdict that `evaluate` returns says of the request.
use jamp.Prelude.{
  String, ◌≡◌, refl, sym, ap, subst, ◌∙◌, Bool, true, List, [], ◌∷◌, Except, ok, err, ◌==◌,
  ok-of-bind, guarded-of-bind, arith, ◌≢◌, all, All, eq_iff,
}
use jamp.Canonical.{Fields, dict, Hasher}
use jamp.Verdict.Aggregation.{verified, aggregate}
use jamp.Verdict.Stages.{Order, CriterionResult, evaluate_criterion}
use jamp.Verdict.Criterion.{Meets, evaluate_criterion-Meets}
use jamp.Verdict.Rule.{aggregate-verified}
use jamp.Verdict.Schema.{
  pass, GateResult, SpecificationRef, Verdict, compute_verdict_id, compute_aggregation_rule_sha256,
  compute_claim_id,
}
use jamp.Verdict.Checks.{
  Stop, evaluation_error, failure, preconditions, decision_procedure, Request, Closures,
  check_closures, check_gate, check_evidence, check_criterion_set,
}
use jamp.Verdict.Evaluate.{
  lift, hashed, evaluate_criteria, results_of, Judged, draft, seal, judge, evaluate, gate_record,
}

lift-ok : {E A : Type 0} (f : E → Stop) (m : Except E A) {a : A} → lift f m ≡ ok a → m ≡ ok a
lift-ok f (ok a) h = cc h
lift-ok f (err e) h = cc

module _ (h : Hasher) (le : Order) (now : String) (q : Request) where
  seal-id :
      (c : Closures) (j : Judged) (v : Verdict)
      → seal h now q c j ≡ ok v
      → (compute_verdict_id h v ≡ ok v.verdict_id)
        × (v.verdict_status ≡ j.status)
        × (v.criterion_results ≡ j.results)
  unfolding seal compute_verdict_id
  seal-id c j v e =
      let (rule, _, e1) =
        ok-of-bind
          (hashed (
            compute_aggregation_rule_sha256 h "standard-pass-fail-unknown" "0.1.0" preconditions
              decision_procedure))
          _ e in
      let (claim, _, e2) =
        ok-of-bind (hashed (compute_claim_id h q.expected_spec_ref.spec_hash j.criterion_set)) _
          e1 in
      let (id, i, e3) =
        ok-of-bind (hashed (compute_verdict_id h (draft q c j rule claim now ""))) _ e2 in
      let made : draft q c j rule claim now id ≡ v = cc e3 in
      subst
        (λ (x : Verdict).
          (compute_verdict_id h x ≡ ok x.verdict_id)
          × (x.verdict_status ≡ j.status)
          × (x.criterion_results ≡ j.results))
        made (lift-ok _ (compute_verdict_id h (draft q c j rule claim now "")) i, refl, refl)

  -- The stages behind a verdict.
  pub record Stages (v : Verdict) : Type 0 where
    closures : Closures
    valid : Bool
    is_valid : check_gate q.expected_spec_ref q.gate_result ≡ ok valid
    judged : Judged
    is_judged : judge h le q closures valid ≡ ok judged
    is_sealed : seal h now q closures judged ≡ ok v

  evaluate-Stages : (v : Verdict) → evaluate h le now q ≡ ok v → Stages v
  unfolding evaluate
  evaluate-Stages v e =
      let (c, _, e1) = ok-of-bind (check_closures q) _ e in
      let (valid, g, e2) = ok-of-bind (check_gate q.expected_spec_ref q.gate_result) _ e1 in
      let (j, i, e3) = ok-of-bind (judge h le q c valid) _ e2 in
      record {
        closures = c;
        valid = valid;
        is_valid = g;
        judged = j;
        is_judged = i;
        is_sealed = e3;
      }

  -- The `verdict_id` of a verdict that is returned is what `compute_verdict_id` gives of it.
  pub evaluate-compute_verdict_id :
      (v : Verdict) → evaluate h le now q ≡ ok v → compute_verdict_id h v ≡ ok v.verdict_id
  evaluate-compute_verdict_id v e =
      let s = evaluate-Stages v e in (seal-id s.closures s.judged v s.is_sealed).0

module _ (le : Order) (c : Closures) (evidence : Fields) where
  abbrev MeetsIt : String × Fields → Type 0
  MeetsIt k = Meets le k.1 evidence

  passed-Meets :
      (criteria : List (String × Fields)) (rs : List CriterionResult)
      → evaluate_criteria le c evidence criteria ≡ ok rs
      → all (λ x. x == "PASS") (results_of rs) ≡ true
      → All MeetsIt criteria
  unfolding evaluate_criteria
  passed-Meets [] rs e p = tt
  passed-Meets ((ref, criterion) ∷ rest) rs e p =
      let (r, er, e1) =
        ok-of-bind
          (lift failure
            (evaluate_criterion le ref criterion evidence c.selector c.criterion_evaluator))
          _ e in
      let (_, rest_of) = guarded-of-bind _ _ (evaluate_criteria le c evidence rest) _ e1 in
      let (more, em, e2) = rest_of in
      let made : rs ≡ r ∷ more = cc e2 in
      let both = passes r more (
        subst (λ (x : List CriterionResult). all (λ x. x == "PASS") (results_of x) ≡ true) made
          p) in
      (
        evaluate_criterion-Meets ref criterion evidence c.selector c.criterion_evaluator le r
            (lift-ok failure _ er) both.0,
        passed-Meets rest more em both.1,
      )
    where
      passes :
          (r : CriterionResult) (more : List CriterionResult)
          → all (λ x. x == "PASS") (results_of (r ∷ more)) ≡ true
          → (r.result ≡ "PASS") × (all (λ x. x == "PASS") (results_of more) ≡ true)
      passes r more h = ground (arith, eq_iff r.result "PASS")

-- What stands behind a verdict of VERIFIED: the gate passed this specification without a diagnostic,
-- and the evidence meets every one of the criteria, of which there is at least one.
pub record Upheld (le : Order) (q : Request) : Type 0 where
  gate_passed : q.gate_result.status ≡ pass
  gate_clean : q.gate_result.diagnostics ≡ []
  same_hash : q.gate_result.spec_ref.spec_hash ≡ q.expected_spec_ref.spec_hash
  evidence : Fields
  is_evidence : q.evidence ≡ dict evidence
  ref : String
  criteria : List (String × Fields)
  is_criteria : check_criterion_set q.criterion_set ≡ ok (ref, criteria)
  nonempty : criteria ≢ []
  all_met : All (λ (k : String × Fields). Meets le k.1 evidence) criteria

gate-passed :
    (expected : SpecificationRef) (g : GateResult)
    → check_gate expected g ≡ ok true
    → (g.status ≡ pass) × (g.diagnostics ≡ []) × (g.spec_ref.spec_hash ≡ expected.spec_hash)
unfolding check_gate
gate-passed expected g h = ground (arith, eq_iff g.spec_ref.spec_hash expected.spec_hash)

evidence-dict : (v : _) (fs : Fields) (r : String) → check_evidence v ≡ ok (fs, r) → v ≡ dict fs
unfolding check_evidence
evidence-dict v fs r h = ground arith

no_criteria :
    (le : Order) (c : Closures) (evidence : Fields) (rs : List CriterionResult)
    → evaluate_criteria le c evidence [] ≡ ok rs
    → results_of rs ≡ []
unfolding evaluate_criteria
no_criteria le c evidence [] e = refl
no_criteria le c evidence (r ∷ rs) e = cc

module _ (h : Hasher) (le : Order) (q : Request) (c : Closures) where
  judge-Upheld :
      (valid : Bool) (j : Judged)
      → check_gate q.expected_spec_ref q.gate_result ≡ ok valid
      → judge h le q c valid ≡ ok j
      → j.status ≡ verified
      → Upheld le q
  unfolding judge
  judge-Upheld valid j g e v =
      let (_, have_evidence) = guarded-of-bind _ _ (check_evidence q.evidence) _ e in
      let (ev, is_ev, e1) = have_evidence in
      let (s, is_s, e2) = ok-of-bind (check_criterion_set q.criterion_set) _ e1 in
      let (record_, _, e3) = ok-of-bind (gate_record h q c valid) _ e2 in
      let (rs, is_rs, e4) = ok-of-bind (evaluate_criteria le c ev.0 s.1) _ e3 in
      let (_, have_status) =
        guarded-of-bind _ _ (lift evaluation_error (aggregate valid (results_of rs))) _ e4 in
      let (status, is_status, e5) = have_status in
      let same : status ≡ verified =
        ap (λ (x : Except Stop Judged). elim x [ ok y ↦ y.status | err y ↦ status ]) e5 ∙ v in
      let (ok_valid, some_result, all_pass) =
        (aggregate-verified valid (results_of rs)).0
          (lift-ok evaluation_error _ is_status ∙ ap ok same) in
      let (p, clean, spec) = gate-passed q.expected_spec_ref q.gate_result (g ∙ ap ok ok_valid) in
      record {
        gate_passed = p;
        gate_clean = clean;
        same_hash = spec;
        evidence = ev.0;
        is_evidence = evidence-dict q.evidence ev.0 ev.1 is_ev;
        ref = s.0;
        criteria = s.1;
        is_criteria = is_s;
        nonempty = λ none_left. some_result (
            no_criteria le c ev.0 rs (
              subst (λ (k : List (String × Fields)). evaluate_criteria le c ev.0 k ≡ ok rs)
                none_left is_rs));
        all_met = passed-Meets le c ev.0 s.1 rs is_rs all_pass;
      }

-- A verdict of VERIFIED is returned only for a specification that the gate passed, with a criterion,
-- and with evidence that meets every criterion.
pub evaluate-Upheld :
    (h : Hasher) (le : Order) (now : String) (q : Request) (v : Verdict)
    → evaluate h le now q ≡ ok v
    → v.verdict_status ≡ verified
    → Upheld le q
evaluate-Upheld h le now q v e s =
    let st = evaluate-Stages h le now q v e in
    let (_, status, _) = seal-id h le now q st.closures st.judged v st.is_sealed in
    judge-Upheld h le q st.closures st.valid st.judged st.is_valid st.is_judged (sym status ∙ s)
