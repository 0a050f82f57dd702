-- ===== src/Hypothesis/Moved.antt =====
-- What a transition of a hypothesis changes.
use jamp.Prelude.{
  suc, String, ◌≡◌, refl, Bool, true, false, Option, none, some, List, [], ◌∷◌, ◌++◌, length, ok,
  err, ◌>>◌, require, ap, sym, subst, ◌∙◌, ok-of-bind,
}
use jamp.Canonical.{Value, Hasher}
use jamp.Hypothesis.Freeze.{integrity, transition_error, Checked, freeze, unique}
use jamp.Hypothesis.Record.{
  HypothesisStatus, active, parse_status, allowed, same_status, check_hashes,
  validate_transition_reason, freeze_all, compute_hypothesis_hash, compute_transition_hash, walk,
  validate_transition_history, HypothesisRecord,
}
use jamp.Hypothesis.Lifecycle.{transition, post_init, move, transition_hypothesis}
use jamp.Hypothesis.Normal.{unique-again}
use jamp.Hypothesis.Constructed.{post_init-Built, post_init-again}

-- `new` is `r` at the status that `to_status` names, with one more transition and the given references.
pub record Moved (r new : HypothesisRecord) (to_status : String) (claims evidence : List String)
    : Type 0 where
  pub named : parse_status to_status ≡ some new.status
  pub permitted : allowed r.status new.status ≡ true
  pub one_more : length new.transition_history ≡ suc (length r.transition_history)
  pub claims_kept : new.claim_hashes ≡ unique (r.claim_hashes ++ claims)
  pub evidence_kept : new.evidence_hashes ≡ unique (r.evidence_hashes ++ evidence)
  pub type_kept : new.hypothesis_type ≡ r.hypothesis_type
  pub parent_kept : new.parent_hypothesis_hash ≡ r.parent_hypothesis_hash

length-freeze_all : (vs ws : List Value) → freeze_all vs ≡ ok ws → length ws ≡ length vs
length-freeze_all [] ws e = sym (ap (λ l. length l) (same e))
  where
    same : ◌≡◌ {A = Checked (List Value)} (ok []) (ok ws) → [] ≡ ws
    same e = cc
length-freeze_all (v ∷ vs) ws e =
    let (w, a, e1) = ok-of-bind (freeze v) _ e in
    let (us, b, e2) = ok-of-bind (freeze_all vs) _ e1 in
    sym (ap (λ l. length l) (same w us e2)) ∙ ap suc (length-freeze_all vs us b)
  where
    same :
        (w : Value) (us : List Value)
        → ◌≡◌ {A = Checked (List Value)} (ok (w ∷ us)) (ok ws)
        → w ∷ us ≡ ws
    same w us e = cc

length-snoc : (vs : List Value) (v : Value) → length (vs ++ v ∷ []) ≡ suc (length vs)
length-snoc [] v = refl
length-snoc (x ∷ vs) v = ap suc (length-snoc vs v)

required : (b : Bool) (u : Unit {0}) → require b transition_error ≡ ok u → b ≡ true
required true u h = refl
required false u h = cc

module _ (h : Hasher) where
  length-validate :
      (history valid : List Value) (status : HypothesisStatus)
      → validate_transition_history h history status ≡ ok valid
      → length valid ≡ length history
  unfolding validate_transition_history
  length-validate history valid status e =
      let (frozen, a, e1) = ok-of-bind (freeze_all history) _ e in
      let (last, b, e2) = ok-of-bind (walk h active frozen) _ e1 in
      let (u, c, e3) = ok-of-bind (require (same_status last status) integrity) _ e2 in
      sym (ap (λ l. length l) (same frozen e3)) ∙ length-freeze_all history frozen a
    where
      same :
          (frozen : List Value)
          → ◌≡◌ {A = Checked (List Value)} (ok frozen) (ok valid)
          → frozen ≡ valid
      same frozen e = cc

  move-Moved :
      (r new : HypothesisRecord) (to_status : String) (target : HypothesisStatus) (reason : Value)
      (claims evidence : List String)
      → parse_status to_status ≡ some target
      → move h r target reason claims evidence ≡ ok new
      → Moved r new to_status claims evidence × (post_init h new ≡ ok new)
  move-Moved r new to_status target reason claims evidence p e =
      let refs =
        check_hashes
          (unique (r.claim_hashes ++ claims) ++ unique (r.evidence_hashes ++ evidence)) in
      let (u, first, e1) =
        ok-of-bind
          (require (allowed r.status target) transition_error >> validate_transition_reason reason)
          _ e in
      let (v, may, e2) = ok-of-bind (require (allowed r.status target) transition_error) _ first in
      let (frozen, a, e3) = ok-of-bind (freeze reason) _ e1 in
      let (hash, b, e4) = ok-of-bind (compute_transition_hash h r.status target reason) _ e3 in
      let (w, c, e5) = ok-of-bind refs _ e4 in
      let (own, d, e6) =
        ok-of-bind
          (compute_hypothesis_hash h r.formulation r.hypothesis_type r.source
            r.parent_hypothesis_hash (unique (r.claim_hashes ++ claims))
            (unique (r.evidence_hashes ++ evidence)) target
            (r.transition_history ++ transition r.status target frozen hash ∷ []))
          _ e5 in
      let given : HypothesisRecord = record r {
        claim_hashes = unique (r.claim_hashes ++ claims);
        evidence_hashes = unique (r.evidence_hashes ++ evidence);
        status = target;
        transition_history = r.transition_history ++ transition r.status target frozen hash ∷ [];
        hypothesis_hash = own;
      } in
      let built = post_init-Built h given new e6 in
      let status : target ≡ new.status =
        ap (λ (x : HypothesisRecord). x.status) (sym built.shape) in
      (
        record {
          named = p ∙ ap some status;
          permitted =
              subst (λ x. allowed r.status x ≡ true) status
                (required (allowed r.status target) v may);
          one_more =
              length-validate given.transition_history new.transition_history target
                built.history_valid
              ∙ length-snoc r.transition_history (transition r.status target frozen hash);
          claims_kept =
              ap (λ (x : HypothesisRecord). x.claim_hashes) built.shape
              ∙ unique-again [] (r.claim_hashes ++ claims);
          evidence_kept =
              ap (λ (x : HypothesisRecord). x.evidence_hashes) built.shape
              ∙ unique-again [] (r.evidence_hashes ++ evidence);
          type_kept = ap (λ (x : HypothesisRecord). x.hypothesis_type) built.shape;
          parent_kept = ap (λ (x : HypothesisRecord). x.parent_hypothesis_hash) built.shape;
        },
        post_init-again h given new e6,
      )

  -- A transition that returns a record goes to the status that is named, which the status of the hypothesis
  -- allows, adds one entry to the history and the given references to the others, and keeps the type and
  -- the parent; and the constructor accepts the new record as it is.
  pub transition_hypothesis-Moved :
      (r new : HypothesisRecord) (to_status : String) (reason : Value)
      (claims evidence : List String)
      → transition_hypothesis h r to_status reason claims evidence ≡ ok new
      → Moved r new to_status claims evidence × (post_init h new ≡ ok new)
  unfolding transition_hypothesis
  transition_hypothesis-Moved r new to_status reason claims evidence e =
      cases (parse_status to_status) refl e
    where
      cases :
          (o : Option HypothesisStatus)
          → parse_status to_status ≡ o
          → elim o as (λ _. Checked HypothesisRecord) [
            | none ↦ err transition_error
            | some target ↦ move h r target reason claims evidence
          ]
            ≡ ok new
          → Moved r new to_status claims evidence × (post_init h new ≡ ok new)
      cases none p e = cc
      cases (some target) p e = move-Moved r new to_status target reason claims evidence p e
