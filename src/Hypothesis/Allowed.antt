-- ===== src/Hypothesis/Allowed.antt =====
-- `transition_hypothesis` returns a record for every move that can be hashed.
use jamp.Prelude.{
  ℕ, String, ◌≡◌, refl, Bool, true, false, List, [], ◌∷◌, ◌++◌, Except, ok, err, ◌>>=◌, ◌>>◌,
  require, ◌==◌, ap, sym, subst, ◌∙◌, ok-of-bind,
}
use package.text.Mathlib.TextPositions.{eq_refl}
use jamp.Prelude.Text.{is_sha256}
use jamp.Prelude.Sort.{sort, insert_sorted}
use jamp.Canonical.{
  Value, str, dict, end, field, text, Hasher, CanonicalizationError, canonical_bytes, replay_hash,
}
use jamp.Hypothesis.Freeze.{
  integrity, transition_error, canonicalization, Checked, check_hash, freeze, thaw,
}
use jamp.Hypothesis.Record.{
  HypothesisStatus, active, supported, refuted, revised, retired, status_at, as_integrity,
  status_name, parse_status, allowed, same_status, validate_transition_reason, freeze_all,
  transition_material, digest, compute_transition_hash, check_transition, walk,
  validate_transition_history,
}
use jamp.Hypothesis.Lifecycle.{transition}
use jamp.Hypothesis.Moves.{same_status-eq, required}

-- The transition with its keys in order.
abbrev pub sorted_transition : HypothesisStatus → HypothesisStatus → Value → String → Value
sorted_transition from to reason hash = dict (
    field (text "from_status") (str (status_name from)) (
      field (text "reason") reason (
        field (text "to_status") (str (status_name to))
          (field (text "transition_hash") (str hash) end))))

freeze-transition :
    (from to : HypothesisStatus) (reason : Value) (hash : String)
    → freeze reason ≡ ok reason
    → freeze (transition from to reason hash) ≡ ok (sorted_transition from to reason hash)
unfolding freeze sort insert_sorted
freeze-transition from to reason hash e = rw e refl

freeze_all-append :
    (vs ws : List Value) (v w : Value)
    → freeze_all vs ≡ ok ws
    → freeze v ≡ ok w
    → freeze_all (vs ++ v ∷ []) ≡ ok (ws ++ w ∷ [])
freeze_all-append [] ws v w e f = rw f (ap (λ us. ok (us ++ w ∷ [])) (same e))
  where
    same : ◌≡◌ {A = Checked (List Value)} (ok []) (ok ws) → [] ≡ ws
    same e = cc
freeze_all-append (x ∷ vs) ws v w e f =
    let (y, a, e1) = ok-of-bind (freeze x) _ e in
    let (ys, b, e2) = ok-of-bind (freeze_all vs) _ e1 in
    rw (a, freeze_all-append vs ys v w b f) (ap (λ us. ok (us ++ w ∷ [])) (same y ys e2))
  where
    same :
        (y : Value) (ys : List Value)
        → ◌≡◌ {A = Checked (List Value)} (ok (y ∷ ys)) (ok ws)
        → y ∷ ys ≡ ws
    same y ys e = cc

module _ (h : Hasher) where
  digest-is_sha256 : (v : Value) (s : String) → digest h v ≡ ok s → is_sha256 s ≡ true
  unfolding digest replay_hash
  digest-is_sha256 v s e = cases (canonical_bytes h v) e
    where
      cases :
          (m : Except CanonicalizationError (List ℕ))
          → elim (m >>= λ bytes. ok (h.sha256 bytes)) as (λ _. Checked String) [
            | ok s ↦ ok s
            | err e ↦ err (canonicalization e)
          ]
            ≡ ok s
          → is_sha256 s ≡ true
      cases (ok bytes) e = subst (λ x. is_sha256 x ≡ true) (same e) (h.sha256_lem bytes)
        where
          same : ◌≡◌ {A = Checked String} (ok (h.sha256 bytes)) (ok s) → h.sha256 bytes ≡ s
          same e = cc
      cases (err x) e = cc

  walk-append :
      (s t u : HypothesisStatus) (vs : List Value) (v : Value)
      → walk h s vs ≡ ok t
      → check_transition h t v ≡ ok u
      → walk h s (vs ++ v ∷ []) ≡ ok u
  walk-append s t u [] v e f = rw (subst (λ x. check_transition h x v ≡ ok u) (sym (same e)) f) refl
    where
      same : ◌≡◌ {A = Checked HypothesisStatus} (ok s) (ok t) → s ≡ t
      same e = cc
  walk-append s t u (x ∷ vs) v e f =
      let (next, a, e1) = ok-of-bind (check_transition h s x) _ e in
      rw a (walk-append next t u vs v e1 f)

  status_at-name : (s : HypothesisStatus) → status_at h (str (status_name s)) ≡ ok s
  unfolding parse_status
  status_at-name active = refl
  status_at-name supported = refl
  status_at-name refuted = refl
  status_at-name revised = refl
  status_at-name retired = refl

  check_transition-sorted :
      (from to : HypothesisStatus) (reason : Value) (hash : String)
      → allowed from to ≡ true
      → validate_transition_reason reason ≡ ok tt
      → digest h (transition_material (str (status_name from)) (str (status_name to)) (thaw reason))
        ≡ ok hash
      → check_transition h from (sorted_transition from to reason hash) ≡ ok to
  unfolding check_transition thaw
  check_transition-sorted from to reason hash may c e =
      steps (status_at h (str (status_name from))) (status_at h (str (status_name to)))
        (as_integrity h (validate_transition_reason reason)) (check_hash hash)
        (digest h
          (transition_material (str (status_name from)) (str (status_name to)) (thaw reason)))
        (status_at-name from) (status_at-name to) (ap (λ m. as_integrity h m) c)
        (rw (digest-is_sha256 _ hash e) refl) e
    where
      steps :
          (a b : Checked HypothesisStatus) (c e : Checked (Unit {0})) (m : Checked String)
          → a ≡ ok from
          → b ≡ ok to
          → c ≡ ok tt
          → e ≡ ok tt
          → m ≡ ok hash
          → (a >>= λ source. b >>= λ target.
              require (same_status source from) integrity
              >> require (allowed source target) integrity
              >> c
              >> e
              >> (m >>= λ d. require (d == hash) integrity >> ok target))
            ≡ ok to
      steps a b c e m ha hb hc he hm =
          rw (ha, hb, hc, he, hm) (rw (eq_refl (status_name from), may, eq_refl hash) refl)

  pub history-append :
      (history : List Value) (from to : HypothesisStatus) (reason : Value) (hash : String)
      → validate_transition_history h history from ≡ ok history
      → freeze reason ≡ ok reason
      → allowed from to ≡ true
      → validate_transition_reason reason ≡ ok tt
      → digest h (transition_material (str (status_name from)) (str (status_name to)) (thaw reason))
        ≡ ok hash
      → (freeze_all (history ++ transition from to reason hash ∷ [])
          ≡ ok (history ++ sorted_transition from to reason hash ∷ []))
        × (validate_transition_history h (history ++ transition from to reason hash ∷ []) to
            ≡ ok (history ++ sorted_transition from to reason hash ∷ []))
  unfolding validate_transition_history
  history-append history from to reason hash v f may c d =
      let (frozen, a, e1) = ok-of-bind (freeze_all history) _ v in
      let (last, w, e2) = ok-of-bind (walk h active frozen) _ e1 in
      let (u, same, e3) = ok-of-bind (require (same_status last from) integrity) _ e2 in
      let is_last : last ≡ from =
        same_status-eq last from (required (same_status last from) u same) in
      let is_frozen : frozen ≡ history = kept frozen e3 in
      let all =
        freeze_all-append history history (transition from to reason hash)
          (sorted_transition from to reason hash)
          (subst (λ x. freeze_all history ≡ ok x) is_frozen a)
          (freeze-transition from to reason hash f) in
      let walked =
        walk-append active from to history (sorted_transition from to reason hash)
          (subst (λ x. walk h active history ≡ ok x) is_last
            (subst (λ x. walk h active x ≡ ok last) is_frozen w))
          (check_transition-sorted from to reason hash may c d) in
      (all, rw all (rw walked (rw (eq_refl (status_name to)) refl)))
    where
      kept :
          (frozen : List Value)
          → ◌≡◌ {A = Checked (List Value)} (ok frozen) (ok history)
          → frozen ≡ history
      kept frozen e = cc

  -- A transition with a hash was allowed, and its reason is valid and frozen.
  pub record Admitted (from to : HypothesisStatus) (reason frozen : Value) (hash : String)
      : Type 0 where
    pub permitted : allowed from to ≡ true
    pub valid : validate_transition_reason reason ≡ ok tt
    pub digested :
        digest h (transition_material (str (status_name from)) (str (status_name to)) (thaw frozen))
        ≡ ok hash

  pub compute_transition_hash-Admitted :
      (from to : HypothesisStatus) (reason frozen : Value) (hash : String)
      → freeze reason ≡ ok frozen
      → compute_transition_hash h from to reason ≡ ok hash
      → Admitted from to reason frozen hash
  unfolding compute_transition_hash
  compute_transition_hash-Admitted from to reason frozen hash f e =
      let (u, first, e1) =
        ok-of-bind (require (allowed from to) transition_error >> validate_transition_reason reason)
          _ e in
      let (v, may, valid) = ok-of-bind (require (allowed from to) transition_error) _ first in
      let (r, a, d) = ok-of-bind (freeze reason) _ e1 in
      record {
        permitted = yes (allowed from to) may;
        valid = valid;
        digested =
            subst
              (λ x.
                digest h
                  (transition_material (str (status_name from)) (str (status_name to)) (thaw x))
                ≡ ok hash)
              (same r (sym a ∙ f)) d;
      }
    where
      yes : (b : Bool) → require b transition_error ≡ ok tt → b ≡ true
      yes true e = refl
      yes false e = cc

      same : (r : Value) → ◌≡◌ {A = Checked Value} (ok r) (ok frozen) → r ≡ frozen
      same r e = cc
