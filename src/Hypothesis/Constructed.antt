-- ===== src/Hypothesis/Constructed.antt =====
-- The records that the constructor of `HypothesisRecord` returns.
use jamp.Prelude.{
  String, ◌≡◌, refl, Bool, true, false, List, [], ◌++◌, ok, ◌>>=◌, ◌>>◌, require, ◌==◌, ap, sym,
  subst, ◌∙◌, ok-of-bind, eq_iff,
}
use package.text.Mathlib.TextPositions.{eq_refl}
use jamp.Canonical.{Value, Hasher}
use jamp.Hypothesis.Freeze.{integrity, Checked, freeze, canonical_formulation, unique}
use jamp.Hypothesis.Record.{
  HypothesisStatus, active, same_status, check_type, check_parent, check_hashes, freeze_all,
  compute_hypothesis_hash, walk, validate_transition_history, HypothesisRecord,
}
use jamp.Hypothesis.Lifecycle.{post_init}
use jamp.Hypothesis.Normal.{canonical_formulation-again, unique-again}
use jamp.Hypothesis.Frozen.{freeze-again}
use jamp.Hypothesis.Accepted.{freeze_all-again, unit}

module _ (h : Hasher) where
  -- What the constructor checked on its way to a record.
  pub record Built (r built : HypothesisRecord) : Type 0 where
    pub formulated : canonical_formulation r.formulation ≡ ok built.formulation
    pub typed : check_type r.hypothesis_type ≡ ok tt
    pub frozen : freeze r.source ≡ ok built.source
    pub parent_checked : check_parent r.parent_hypothesis_hash ≡ ok tt
    pub references_checked :
        check_hashes (unique r.claim_hashes ++ unique r.evidence_hashes) ≡ ok tt
    pub history_valid :
        validate_transition_history h r.transition_history r.status ≡ ok built.transition_history
    pub hashed :
        compute_hypothesis_hash h built.formulation r.hypothesis_type built.source
          r.parent_hypothesis_hash
          (unique r.claim_hashes)
          (unique r.evidence_hashes)
          r.status
          built.transition_history
        ≡ ok r.hypothesis_hash
    pub shape : built ≡ record r {
      formulation = built.formulation;
      source = built.source;
      claim_hashes = unique r.claim_hashes;
      evidence_hashes = unique r.evidence_hashes;
      transition_history = built.transition_history;
    }

  pub post_init-Built : (r built : HypothesisRecord) → post_init h r ≡ ok built → Built r built
  unfolding post_init
  post_init-Built r built e =
      let (f, formulated, e1) = ok-of-bind (canonical_formulation r.formulation) _ e in
      let (u, typed, e2) = ok-of-bind (check_type r.hypothesis_type) _ e1 in
      let (s, frozen, e3) = ok-of-bind (freeze r.source) _ e2 in
      let (v, checked, e4) =
        ok-of-bind
          (check_parent r.parent_hypothesis_hash
            >> check_hashes (unique r.claim_hashes ++ unique r.evidence_hashes))
          _ e3 in
      let (w, parent_ok, references) =
        ok-of-bind (check_parent r.parent_hypothesis_hash) _ checked in
      let (hist, valid, e5) =
        ok-of-bind (validate_transition_history h r.transition_history r.status) _ e4 in
      let (expected, hashed, e6) =
        ok-of-bind
          (compute_hypothesis_hash h f r.hypothesis_type s r.parent_hypothesis_hash
            (unique r.claim_hashes) (unique r.evidence_hashes) r.status hist)
          _ e5 in
      let (x, same_hash, e7) =
        ok-of-bind (require (expected == r.hypothesis_hash) integrity) _ e6 in
      subst (Built r) (same f s hist e7) (record {
        formulated = formulated;
        typed = unit typed;
        frozen = frozen;
        parent_checked = unit parent_ok;
        references_checked = unit references;
        history_valid = valid;
        hashed =
            hashed
            ∙ ap ok (
                (eq_iff expected r.hypothesis_hash).0
                  (required (expected == r.hypothesis_hash) same_hash));
        shape = refl;
      })
    where
      required : (b : Bool) → require b integrity ≡ ok tt → b ≡ true
      required true e = refl
      required false e = cc

      same :
          (f : String) (s : Value) (hist : List Value)
          → ◌≡◌ {A = Checked HypothesisRecord}
              (ok (record r {
                formulation = f;
                source = s;
                claim_hashes = unique r.claim_hashes;
                evidence_hashes = unique r.evidence_hashes;
                transition_history = hist;
              }))
              (ok built)
          → record r {
            formulation = f;
            source = s;
            claim_hashes = unique r.claim_hashes;
            evidence_hashes = unique r.evidence_hashes;
            transition_history = hist;
          }
            ≡ built
      same f s hist e = cc

  pub Built-post_init : (r built : HypothesisRecord) → Built r built → post_init h r ≡ ok built
  unfolding post_init
  Built-post_init r built b =
      steps (canonical_formulation r.formulation) (check_type r.hypothesis_type) (freeze r.source)
        (check_parent r.parent_hypothesis_hash)
        (check_hashes (unique r.claim_hashes ++ unique r.evidence_hashes))
        (validate_transition_history h r.transition_history r.status)
        (λ f. λ s. λ hist.
          compute_hypothesis_hash h f r.hypothesis_type s r.parent_hypothesis_hash
            (unique r.claim_hashes) (unique r.evidence_hashes) r.status hist)
        b.formulated b.typed b.frozen b.parent_checked b.references_checked b.history_valid b.hashed
      ∙ ap ok (sym b.shape)
    where
      after : String → Value → List Value → HypothesisRecord
      after f s hist = record r {
        formulation = f;
        source = s;
        claim_hashes = unique r.claim_hashes;
        evidence_hashes = unique r.evidence_hashes;
        transition_history = hist;
      }

      steps :
          (m : Checked String) (t : Checked (Unit {0})) (v : Checked Value)
          (p q : Checked (Unit {0})) (w : Checked (List Value))
          (hash : String → Value → List Value → Checked String)
          → m ≡ ok built.formulation
          → t ≡ ok tt
          → v ≡ ok built.source
          → p ≡ ok tt
          → q ≡ ok tt
          → w ≡ ok built.transition_history
          → hash built.formulation built.source built.transition_history ≡ ok r.hypothesis_hash
          → (m >>= λ f.
              t
              >> (v >>= λ s.
                  p
                  >> q
                  >> (w >>= λ hist. hash f s hist >>= λ expected.
                      require (expected == r.hypothesis_hash) integrity >> ok (after f s hist))))
            ≡ ok (after built.formulation built.source built.transition_history)
      steps m t v p q w hash hm ht hv hp hq hw hh =
          rw (hm, ht, hv, hp, hq, hw) (rw hh (rw (eq_refl r.hypothesis_hash) refl))

  validate_history-again :
      (history valid : List Value) (status : HypothesisStatus)
      → validate_transition_history h history status ≡ ok valid
      → validate_transition_history h valid status ≡ ok valid
  unfolding validate_transition_history
  validate_history-again history valid status e =
      let (frozen, a, e1) = ok-of-bind (freeze_all history) _ e in
      let (last, b, e2) = ok-of-bind (walk h active frozen) _ e1 in
      let (u, c, e3) = ok-of-bind (require (same_status last status) integrity) _ e2 in
      subst (λ x. validate_transition_history h x status ≡ ok x) (same frozen e3)
        (rw (freeze_all-again history frozen a) (rw b (rw (unit c) refl)))
    where
      same :
          (frozen : List Value)
          → ◌≡◌ {A = Checked (List Value)} (ok frozen) (ok valid)
          → frozen ≡ valid
      same frozen e = cc

  -- The constructor on fields in normal form.
  normal-post_init :
      (n : HypothesisRecord)
      → canonical_formulation n.formulation ≡ ok n.formulation
      → check_type n.hypothesis_type ≡ ok tt
      → freeze n.source ≡ ok n.source
      → check_parent n.parent_hypothesis_hash ≡ ok tt
      → unique n.claim_hashes ≡ n.claim_hashes
      → unique n.evidence_hashes ≡ n.evidence_hashes
      → check_hashes (n.claim_hashes ++ n.evidence_hashes) ≡ ok tt
      → validate_transition_history h n.transition_history n.status ≡ ok n.transition_history
      → compute_hypothesis_hash h n.formulation n.hypothesis_type n.source n.parent_hypothesis_hash
          n.claim_hashes n.evidence_hashes n.status n.transition_history
        ≡ ok n.hypothesis_hash
      → post_init h n ≡ ok n
  normal-post_init n f t s p c e r v k = Built-post_init n n (record {
    formulated = f;
    typed = t;
    frozen = s;
    parent_checked = p;
    references_checked =
        ap (λ x. check_hashes (x ++ unique n.evidence_hashes)) c
        ∙ ap (λ x. check_hashes (n.claim_hashes ++ x)) e
        ∙ r;
    history_valid = v;
    hashed =
        ap
          (λ x.
            compute_hypothesis_hash h n.formulation n.hypothesis_type n.source
              n.parent_hypothesis_hash x (unique n.evidence_hashes) n.status n.transition_history)
          c
        ∙ ap
            (λ x.
              compute_hypothesis_hash h n.formulation n.hypothesis_type n.source
                n.parent_hypothesis_hash n.claim_hashes x n.status n.transition_history)
            e
        ∙ k;
    shape = λ i. record n { claim_hashes = sym c i; evidence_hashes = sym e i };
  })

  -- A record that the constructor returned is returned as it is when the constructor is called with its fields.
  pub post_init-again :
      (r built : HypothesisRecord) → post_init h r ≡ ok built → post_init h built ≡ ok built
  post_init-again r built e =
      let b = post_init-Built r built e in
      subst (λ x. post_init h x ≡ ok x) (sym b.shape)
        (normal-post_init
          (record r {
            formulation = built.formulation;
            source = built.source;
            claim_hashes = unique r.claim_hashes;
            evidence_hashes = unique r.evidence_hashes;
            transition_history = built.transition_history;
          })
          (canonical_formulation-again r.formulation built.formulation b.formulated) b.typed
          (freeze-again r.source built.source b.frozen) b.parent_checked
          (unique-again [] r.claim_hashes) (unique-again [] r.evidence_hashes) b.references_checked
          (validate_history-again r.transition_history built.transition_history r.status
            b.history_valid)
          b.hashed)
