-- ===== src/Hypothesis/Succeeds.antt =====
-- `transition_hypothesis` returns a record for every move that can be hashed.
use jamp.Prelude.{
  String, ◌≡◌, refl, Option, none, some, List, [], ◌∷◌, ◌++◌, ok, err, ◌>>=◌, ◌>>◌, ap, sym, subst,
  ◌∙◌,
}
use jamp.Canonical.{Value, Hasher}
use jamp.Hypothesis.Freeze.{transition_error, Checked, freeze, canonical_formulation, unique}
use jamp.Hypothesis.Record.{
  HypothesisStatus, parse_status, check_type, check_parent, check_hashes, freeze_all,
  hypothesis_material, digest, compute_hypothesis_hash, compute_transition_hash, HypothesisRecord,
}
use jamp.Hypothesis.Lifecycle.{transition, post_init, move, transition_hypothesis}
use jamp.Hypothesis.Normal.{unique-again}
use jamp.Hypothesis.Frozen.{freeze-again}
use jamp.Hypothesis.Accepted.{compute_hypothesis_hash-Hashed, freeze_all-again}
use jamp.Hypothesis.Constructed.{post_init-Built, Built-post_init}
use jamp.Hypothesis.Reason.{reason-Frozen}
use jamp.Hypothesis.Allowed.{sorted_transition, history-append, compute_transition_hash-Admitted}

module _ (h : Hasher) where
  -- The history is hashed in its normal form.
  compute_hypothesis_hash-freeze_all :
      (f type : String) (source : Value) (parent : Option String) (claims evidence : List String)
      (status : HypothesisStatus) (history frozen : List Value) (own : String)
      → freeze_all history ≡ ok frozen
      → compute_hypothesis_hash h f type source parent claims evidence status history ≡ ok own
      → compute_hypothesis_hash h f type source parent claims evidence status frozen ≡ ok own
  unfolding compute_hypothesis_hash
  compute_hypothesis_hash-freeze_all f type source parent claims evidence status history frozen own
        a e =
      subst
        (λ m.
          (canonical_formulation f >>= λ f.
          check_type type
          >> (freeze source >>= λ s.
              check_parent parent
              >> check_hashes (claims ++ evidence)
              >> (m >>= λ hs. digest h (
                  hypothesis_material f type s parent (unique claims) (unique evidence) status
                    hs))))
          ≡ ok own)
        (a ∙ sym (freeze_all-again history frozen a)) e

  move-succeeds :
      (r : HypothesisRecord) (target : HypothesisStatus) (reason frozen : Value)
      (claims evidence : List String) (hash own : String)
      → post_init h r ≡ ok r
      → freeze reason ≡ ok frozen
      → compute_transition_hash h r.status target reason ≡ ok hash
      → compute_hypothesis_hash h r.formulation r.hypothesis_type r.source r.parent_hypothesis_hash
          (unique (r.claim_hashes ++ claims))
          (unique (r.evidence_hashes ++ evidence))
          target
          (r.transition_history ++ transition r.status target frozen hash ∷ [])
        ≡ ok own
      → (new : HypothesisRecord) × (move h r target reason claims evidence ≡ ok new)
        × (new.status ≡ target)
        × (new.hypothesis_hash ≡ own)
  move-succeeds r target reason frozen claims evidence hash own valid f t e =
      let c = unique (r.claim_hashes ++ claims) in
      let ev = unique (r.evidence_hashes ++ evidence) in
      let c_again : unique c ≡ c = unique-again [] (r.claim_hashes ++ claims) in
      let ev_again : unique ev ≡ ev = unique-again [] (r.evidence_hashes ++ evidence) in
      let b = post_init-Built h r r valid in
      let k =
        compute_hypothesis_hash-Hashed h r.formulation r.hypothesis_type r.source
          r.parent_hypothesis_hash c ev target
          (r.transition_history ++ transition r.status target frozen hash ∷ []) own e in
      let adm = compute_transition_hash-Admitted h r.status target reason frozen hash f t in
      let history =
        history-append h r.transition_history r.status target frozen hash b.history_valid
          (freeze-again reason frozen f) adm.permitted (reason-Frozen reason frozen adm.valid f)
          adm.digested in
      let given : HypothesisRecord = record r {
        claim_hashes = c;
        evidence_hashes = ev;
        status = target;
        transition_history = r.transition_history ++ transition r.status target frozen hash ∷ [];
        hypothesis_hash = own;
      } in
      let new : HypothesisRecord = record given {
        transition_history =
            r.transition_history ++ sorted_transition r.status target frozen hash ∷ [];
      } in
      let built = Built-post_init h given new (record {
        formulated = b.formulated;
        typed = b.typed;
        frozen = b.frozen;
        parent_checked = b.parent_checked;
        references_checked =
            ap (λ x. check_hashes (x ++ unique ev)) c_again
            ∙ ap (λ x. check_hashes (c ++ x)) ev_again
            ∙ k.references_checked;
        history_valid = history.1;
        hashed =
            ap
              (λ x.
                compute_hypothesis_hash h r.formulation r.hypothesis_type r.source
                  r.parent_hypothesis_hash x (unique ev) target new.transition_history)
              c_again
            ∙ ap
                (λ x.
                  compute_hypothesis_hash h r.formulation r.hypothesis_type r.source
                    r.parent_hypothesis_hash c x target new.transition_history)
                ev_again
            ∙ compute_hypothesis_hash-freeze_all r.formulation r.hypothesis_type r.source
                r.parent_hypothesis_hash c ev target given.transition_history new.transition_history
                own history.0 e;
        shape = λ i. record new { claim_hashes = sym c_again i; evidence_hashes = sym ev_again i };
      }) in
      (new, rw (adm.permitted, adm.valid, f, t) (rw (k.references_checked, e) built), refl, refl)

  -- Every record that the constructor returns can go on: `transition_hypothesis` returns a record, at the status
  -- that is named and with the hash of the new fields, whenever the reason can be frozen and the two hashes,
  -- of the transition and of the new fields, can be computed.
  pub transition_hypothesis-succeeds :
      (r : HypothesisRecord) (to_status : String) (target : HypothesisStatus)
      (reason frozen : Value) (claims evidence : List String) (hash own : String)
      → post_init h r ≡ ok r
      → parse_status to_status ≡ some target
      → freeze reason ≡ ok frozen
      → compute_transition_hash h r.status target reason ≡ ok hash
      → compute_hypothesis_hash h r.formulation r.hypothesis_type r.source r.parent_hypothesis_hash
          (unique (r.claim_hashes ++ claims))
          (unique (r.evidence_hashes ++ evidence))
          target
          (r.transition_history ++ transition r.status target frozen hash ∷ [])
        ≡ ok own
      → (new : HypothesisRecord) × (transition_hypothesis h r to_status reason claims evidence
          ≡ ok new)
        × (new.status ≡ target)
        × (new.hypothesis_hash ≡ own)
  unfolding transition_hypothesis
  transition_hypothesis-succeeds r to_status target reason frozen claims evidence hash own valid p f
        t e =
      let (new, moved, status, hashed) =
        move-succeeds r target reason frozen claims evidence hash own valid f t e in
      (new, cases (parse_status to_status) p new moved, status, hashed)
    where
      cases :
          (o : Option HypothesisStatus)
          → o ≡ some target
          → (new : HypothesisRecord) → move h r target reason claims evidence ≡ ok new
          → elim o as (λ _. Checked HypothesisRecord) [
            | none ↦ err transition_error
            | some target ↦ move h r target reason claims evidence
          ]
            ≡ ok new
      cases o p new moved = rw p moved
