-- ===== src/Hypothesis/Moves.antt =====
-- The statuses that the history of a hypothesis can go through.
use jamp.Prelude.{
  ℕ, ◌+◌, ◌≤◌, ◌<◌, String, ◌≡◌, refl, Bool, true, false, Option, none, some, List, [], ◌∷◌, length,
  ok, err, ◌>>=◌, ◌>>◌, require, ◌==◌, ap, sym, subst, ok-of-bind, eq_iff, arith,
}
use jamp.Canonical.{Value, null, bool, int, float, str, list, tuple, dict, unsupported, Hasher}
use jamp.Ledger.{get_field}
use jamp.Hypothesis.Freeze.{integrity, Checked, check_hash_value, thaw}
use jamp.Hypothesis.Record.{
  HypothesisStatus, active, supported, refuted, revised, retired, status_name, parse_status,
  allowed, same_status, validate_transition_reason, transition_material, digest, status_at,
  as_integrity, check_values, check_transition, walk, freeze_all, validate_transition_history,
  HypothesisRecord,
}
use jamp.Hypothesis.Lifecycle.{post_init}
use jamp.Hypothesis.Constructed.{post_init-Built}

pub parse-name : (s : HypothesisStatus) → parse_status (status_name s) ≡ some s
unfolding parse_status
parse-name active = refl
parse-name supported = refl
parse-name refuted = refl
parse-name revised = refl
parse-name retired = refl

pub same_status-eq : (a b : HypothesisStatus) → same_status a b ≡ true → a ≡ b
same_status-eq a b h =
    cc (parse-name a, parse-name b, ap parse_status ((eq_iff (status_name a) (status_name b)).0 h))

-- How far a status is from ACTIVE at most.
abbrev pub level : HypothesisStatus → ℕ
level active = 0
level supported = 1
level status = 2

allowed-level : (s t : HypothesisStatus) → allowed s t ≡ true → level s < level t
allowed-level active active h = cc
allowed-level active supported h = omega arith
allowed-level active refuted h = omega arith
allowed-level active revised h = omega arith
allowed-level active retired h = omega arith
allowed-level supported active h = cc
allowed-level supported supported h = cc
allowed-level supported refuted h = omega arith
allowed-level supported revised h = omega arith
allowed-level supported retired h = omega arith
allowed-level refuted t h = cc
allowed-level revised t h = cc
allowed-level retired t h = cc

pub required : (b : Bool) (u : Unit {0}) → require b integrity ≡ ok u → b ≡ true
required true u h = refl
required false u h = cc

last_status :
    (a b : Bool) (c e : Checked (Unit {0})) (m : Checked String) (f : String → Checked (Unit {0}))
    (target t : HypothesisStatus)
    → (require a integrity >> require b integrity >> c >> e >> (m >>= λ d. f d >> ok target)) ≡ ok t
    → (a ≡ true) × (b ≡ true) × (target ≡ t)
last_status true true (ok u) (ok v) (ok d) f target t h = (refl, refl, after (f d) h)
  where
    after : (n : Checked (Unit {0})) → (n >> ok target) ≡ ok t → target ≡ t
    after (ok w) h = cc
    after (err x) h = cc
last_status true true (ok u) (ok v) (err x) f target t h = cc
last_status true true (ok u) (err x) m f target t h = cc
last_status true true (err x) e m f target t h = cc
last_status true false c e m f target t h = cc
last_status false b c e m f target t h = cc

module _ (h : Hasher) where
  check_values-allowed :
      (s t : HypothesisStatus) (from to reason hash : Value)
      → check_values h s from to reason hash ≡ ok t
      → allowed s t ≡ true
  check_values-allowed s t from to reason hash e =
      let (source, a, e1) = ok-of-bind (status_at h from) _ e in
      let (target, b, e2) = ok-of-bind (status_at h to) _ e1 in
      let (same, may, is_t) =
        last_status (same_status source s) (allowed source target)
          (as_integrity h (validate_transition_reason reason)) (check_hash_value hash)
          (digest h (transition_material (thaw from) (thaw to) (thaw reason)))
          (λ d. elim hash [ str x ↦ require (d == x) integrity | _ ↦ err integrity ]) target t e2 in
      subst (λ x. allowed x t ≡ true) (same_status-eq source s same)
        (subst (λ x. allowed source x ≡ true) is_t may)

  check_transition-allowed :
      (s t : HypothesisStatus) (v : Value) → check_transition h s v ≡ ok t → allowed s t ≡ true
  unfolding check_transition
  check_transition-allowed s t (dict fs) e =
      by_fields (get_field "from_status" fs) (get_field "to_status" fs) (get_field "reason" fs)
        (get_field "transition_hash" fs) e
    where
      by_fields :
          (a b c x : Option Value)
          → elim a as (λ _. Checked HypothesisStatus) [
            | none ↦ err integrity
            | some from ↦ elim b [
              | none ↦ err integrity
              | some to ↦ elim c [
                | none ↦ err integrity
                | some reason ↦ elim x [
                  | none ↦ err integrity
                  | some hash ↦ check_values h s from to reason hash
                ]
              ]
            ]
          ]
            ≡ ok t
          → allowed s t ≡ true
      by_fields none b c x e = cc
      by_fields (some from) none c x e = cc
      by_fields (some from) (some to) none x e = cc
      by_fields (some from) (some to) (some reason) none e = cc
      by_fields (some from) (some to) (some reason) (some hash) e =
          check_values-allowed s t from to reason hash e
  check_transition-allowed s t null e = cc
  check_transition-allowed s t (bool b) e = cc
  check_transition-allowed s t (int n) e = cc
  check_transition-allowed s t (float bits) e = cc
  check_transition-allowed s t (str x) e = cc
  check_transition-allowed s t (list xs) e = cc
  check_transition-allowed s t (tuple xs) e = cc
  check_transition-allowed s t unsupported e = cc

  walk-level :
      (s t : HypothesisStatus) (vs : List Value)
      → walk h s vs ≡ ok t
      → level s + length vs ≤ level t
  walk-level s t [] e = omega (arith, ap level (same e))
    where
      same : ◌≡◌ {A = Checked HypothesisStatus} (ok s) (ok t) → s ≡ t
      same e = cc
  walk-level s t (v ∷ vs) e =
      let (next, a, e1) = ok-of-bind (check_transition h s v) _ e in
      omega
        (arith, allowed-level s next (check_transition-allowed s next v a), walk-level next t vs e1)

  -- A record that the constructor returned has at most two transitions, and no more than its status is away
  -- from ACTIVE: none when it is ACTIVE, at most one when it is SUPPORTED.
  pub post_init-level :
      (r built : HypothesisRecord)
      → post_init h r ≡ ok built
      → (length built.transition_history ≤ level built.status) × (level built.status ≤ 2)
  unfolding validate_transition_history
  post_init-level r built e =
      let b = post_init-Built h r built e in
      let (frozen, a, e1) = ok-of-bind (freeze_all r.transition_history) _ (b.history_valid) in
      let (last, w, e2) = ok-of-bind (walk h active frozen) _ e1 in
      let (u, same, e3) = ok-of-bind (require (same_status last r.status) integrity) _ e2 in
      let status : r.status ≡ built.status =
        ap (λ (x : HypothesisRecord). x.status) (sym b.shape) in
      let is_last = same_status-eq last r.status (required (same_status last r.status) u same) in
      (
        omega (
          arith,
          walk-level active last frozen w,
          ap level is_last,
          ap level status,
          ap (λ l. length l) (history frozen e3),
        ),
        at_most built.status,
      )
    where
      history :
          (frozen : List Value)
          → ◌≡◌ {A = Checked (List Value)} (ok frozen) (ok built.transition_history)
          → frozen ≡ built.transition_history
      history frozen e = cc

      at_most : (s : HypothesisStatus) → level s ≤ 2
      at_most active = omega arith
      at_most supported = omega arith
      at_most refuted = omega arith
      at_most revised = omega arith
      at_most retired = omega arith
