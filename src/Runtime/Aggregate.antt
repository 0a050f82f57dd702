-- ===== src/Runtime/Aggregate.antt =====
-- What the aggregate of a list of claims says of the claims.
use jamp.Prelude.{
  String, ◌≡◌, refl, Bool, true, false, not, ◌&&◌, List, [], ◌∷◌, ok, err, any, all, ◌==◌,
  if◌then◌else◌, ◌↔◌, ◌≢◌, arith, eq_iff, subst, sym, Bool-cases, inl, inr,
}
use jamp.Canonical.{Value, str}
use jamp.Verdict.Stages.{hashable}
use jamp.Runtime.Claims.{
  Item, status_value, critical_value, truthy, is_verified, is_contradicted, verified, contradicted,
  inconclusive, status_text, is_open, aggregate_verdict, type_error, verified_value,
  critical_unverified_claims, as_text, text_value,
}

-- No text is both a verified and a contradicted status.
verified-differs : (s : String) → is_verified s ≡ true → is_contradicted s ≡ false
verified-differs s h = elim (Bool-cases (s == "VERIFIED")) [
  | inl e ↦ subst (λ x. is_contradicted x ≡ false) (sym ((eq_iff s "VERIFIED").0 e)) refl
  | inr e ↦
      subst (λ x. is_contradicted x ≡ false) (sym ((eq_iff s "E4_VERIFIED").0 (rw e at h))) refl
]

module _ (show : Value → String) where
  all-verified :
      (cs : List Item)
      → all (λ x. is_verified (status_text show x)) cs ≡ true
      → (any (λ x. is_contradicted (status_text show x)) cs ≡ false)
        × (any (is_open show) cs ≡ false)
  all-verified [] h = (refl, refl)
  all-verified (c ∷ cs) h = ground (arith, all-verified cs, verified-differs (status_text show c))

  -- The aggregate is VERIFIED exactly if there is a claim and every claim is verified.
  pub aggregate_verdict-verified :
      (cs : List Item)
      → (aggregate_verdict show cs ≡ verified)
        ↔ ((cs ≢ []) × (all (λ x. is_verified (status_text show x)) cs ≡ true))
  unfolding aggregate_verdict
  aggregate_verdict-verified [] = (λ e. cc e, λ h. absurd (h.0 refl))
  aggregate_verdict-verified (c ∷ cs) =
      ((λ e. ((λ x. cc x), ground arith)), (λ h. ground (arith, all-verified (c ∷ cs) h.1)))

  -- The aggregate is CONTRADICTED exactly if some claim is contradicted.
  pub aggregate_verdict-contradicted :
      (cs : List Item)
      → (aggregate_verdict show cs ≡ contradicted)
        ↔ (any (λ x. is_contradicted (status_text show x)) cs ≡ true)
  unfolding aggregate_verdict
  aggregate_verdict-contradicted [] = (λ e. cc e, λ h. cc h)
  aggregate_verdict-contradicted (c ∷ cs) = ((λ e. ground arith), (λ h. ground arith))

-- A status that is a text, as the contract of a claim has it.
abbrev pub is_str : Value → Bool
is_str (str s) = true
is_str _ = false

module _ (show : Value → String) where
  listed-is_open :
      (c : Item) (v : Value)
      → status_value c ≡ v
      → is_str v ≡ true
      → (if truthy (critical_value c)
          then if hashable v then ok (not (verified_value v)) else err type_error
          else ok false)
        ≡ ok (truthy (critical_value c) && not (is_verified (as_text show v)))
  unfolding hashable
  listed-is_open c (str s) e h = ground arith
  listed-is_open c _ e h = absurd (cc h)

  critical_unverified_claims-lists :
      (cs : List Item)
      → all (λ x. is_str (status_value x)) cs ≡ true
      → (r : List String) × (critical_unverified_claims show cs ≡ ok r)
        × ((any (is_open show) cs ≡ true) ↔ (r ≢ []))
  unfolding critical_unverified_claims
  critical_unverified_claims-lists [] h = ([], refl, ((λ e. cc e), λ n. absurd (n refl)))
  critical_unverified_claims-lists (c ∷ cs) h =
      let (r, e, i) = critical_unverified_claims-lists cs (ground arith) in
      let l = listed-is_open c (status_value c) refl (ground arith) in
      elim (Bool-cases (is_open show c)) [
        | inl o ↦
            (as_text show (text_value c) ∷ r, rw (l, e, o) refl, ((λ _. λ n. cc n), λ _. rw o refl))
        | inr o ↦ (r, rw (l, e, o) refl, rw o i)
      ]

  -- On claims whose statuses are texts, none of them contradicted, the list of the critical claims
  -- that are not verified is returned, and it is not empty exactly if the aggregate is INCONCLUSIVE.
  pub aggregate_verdict-inconclusive :
      (cs : List Item)
      → all (λ x. is_str (status_value x)) cs ≡ true
      → any (λ x. is_contradicted (status_text show x)) cs ≡ false
      → (r : List String) × (critical_unverified_claims show cs ≡ ok r)
        × ((aggregate_verdict show cs ≡ inconclusive) ↔ (r ≢ []))
  unfolding aggregate_verdict
  aggregate_verdict-inconclusive [] t n =
      let (r, e, i) = critical_unverified_claims-lists [] t in
      (r, e, ((λ x. cc x), λ k. cc (i.1 k)))
  aggregate_verdict-inconclusive (c ∷ cs) t n =
      let (r, e, i) = critical_unverified_claims-lists (c ∷ cs) t in
      (r, e, ((λ x. i.0 (ground arith)), λ k. ground (arith, i.1 k)))
