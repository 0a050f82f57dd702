-- ===== src/Aew/Budget.antt =====
-- The budget policy of src/jamp/aew/budget.py. Token and call counts are integers; an amount of
-- money is a float there, so its type, its sum and its order are parameters.
use jamp.Prelude.{
  ◌≡◌, Bool, true, false, not, ◌&&◌, ◌||◌, Option, some, Except, ok, ◌>>◌, refuse_if, arith,
  if◌then◌else◌, ◌↔◌, ap,
}
use jamp.Prelude.Int.{ℤ, pos, ◌+ℤ◌, ltb_ℤ, leb_ℤ, ◌≤ℤ◌}

-- What the code uses of Python's float.
pub record Money : Type 1 where
  pub Amount : Type 0
  pub zero_amount : Amount
  pub plus : Amount → Amount → Amount
  pub less : Amount → Amount → Bool

pub data Reason : Type 0 where
  invalid_usage missing_cost_estimate invalid_cost_estimate escalation_disabled : Reason
  max_calls_exceeded token_budget_exceeded spend_cap_exceeded authorized : Reason

pub record BudgetDecision : Type 0 where
  pub allowed : Bool
  pub escalation : Bool
  pub reason : Reason

pub data PolicyError : Type 0 where
  token_budget_not_positive max_calls_not_positive spend_cap_negative : PolicyError

module _ (m : Money) where
  open m use {Amount, zero_amount, plus, less}

  pub record BudgetUsage : Type 0 where
    pub tokens : ℤ
    pub calls : ℤ
    pub spend_usd : Amount

  pub record ModelBudgetPolicy : Type 0 where
    pub token_budget : ℤ
    pub max_calls : ℤ
    pub spend_cap_usd : Amount
    pub escalation_enabled : Bool

  -- The constructor, with `__post_init__`.
  unfoldable pub make_policy : ℤ → ℤ → Amount → Bool → Except PolicyError ModelBudgetPolicy
  make_policy tokens calls cap enabled =
      refuse_if (leb_ℤ tokens (pos 0)) token_budget_not_positive
      >> refuse_if (leb_ℤ calls (pos 0)) max_calls_not_positive
      >> refuse_if (less cap zero_amount) spend_cap_negative
      >> ok (record {
        token_budget = tokens;
        max_calls = calls;
        spend_cap_usd = cap;
        escalation_enabled = enabled;
      })

  abbrev deny : Bool → Reason → BudgetDecision
  deny e r = record { allowed = false; escalation = e; reason = r }

  -- `authorize` from the test of the estimates' signs on.
  authorize_known : ModelBudgetPolicy → BudgetUsage → ℤ → Amount → Bool → BudgetDecision
  authorize_known p u tokens cost escalation =
      if ltb_ℤ tokens (pos 0) || less cost zero_amount
      then deny escalation invalid_cost_estimate
      else if escalation && not p.escalation_enabled
      then deny true escalation_disabled
      else if ltb_ℤ p.max_calls (u.calls +ℤ pos 1)
      then deny escalation max_calls_exceeded
      else if ltb_ℤ p.token_budget (u.tokens +ℤ tokens)
      then deny escalation token_budget_exceeded
      else if less p.spend_cap_usd (plus u.spend_usd cost)
      then deny escalation spend_cap_exceeded
      else record { allowed = true; escalation = escalation; reason = authorized }

  authorize_estimates :
      ModelBudgetPolicy → BudgetUsage → Option ℤ → Option Amount → Bool → BudgetDecision
  unfolding authorize_known
  authorize_estimates p u (some tokens) (some cost) escalation =
      authorize_known p u tokens cost escalation
  authorize_estimates p u _ _ escalation = deny escalation missing_cost_estimate

  unfoldable pub authorize :
      ModelBudgetPolicy → BudgetUsage → Option ℤ → Option Amount → Bool → BudgetDecision
  unfolding authorize_estimates
  authorize p u tokens cost escalation =
      if ltb_ℤ u.tokens (pos 0) || ltb_ℤ u.calls (pos 0) || less u.spend_usd zero_amount
      then deny escalation invalid_usage
      else authorize_estimates p u tokens cost escalation

  -- The conditions under which a call may be made.
  abbrev pub Permitted : ModelBudgetPolicy → BudgetUsage → ℤ → Amount → Bool → Type 0
  Permitted p u tokens cost escalation =
      (pos 0 ≤ℤ u.tokens)
      × (pos 0 ≤ℤ u.calls)
      × (less u.spend_usd zero_amount ≡ false)
      × (pos 0 ≤ℤ tokens)
      × (less cost zero_amount ≡ false)
      × ((escalation && not p.escalation_enabled) ≡ false)
      × (u.calls +ℤ pos 1 ≤ℤ p.max_calls)
      × (u.tokens +ℤ tokens ≤ℤ p.token_budget)
      × (less p.spend_cap_usd (plus u.spend_usd cost) ≡ false)

  abbrev pub PermittedEstimates :
      ModelBudgetPolicy → BudgetUsage → Option ℤ → Option Amount → Bool → Type 0
  PermittedEstimates p u (some tokens) (some cost) escalation = Permitted p u tokens cost escalation
  PermittedEstimates p u _ _ escalation = ⊥

  authorize-only :
      (p : ModelBudgetPolicy) (u : BudgetUsage) (tokens : Option ℤ) (cost : Option Amount)
      (e : Bool)
      → (authorize p u tokens cost e).allowed ≡ true
      → PermittedEstimates p u tokens cost e
  unfolding authorize
  authorize-only p u (some t) (some c) e h = ground arith
  authorize-only p u _ _ e h = ground arith

  authorize-whenever :
      (p : ModelBudgetPolicy) (u : BudgetUsage) (tokens : Option ℤ) (cost : Option Amount)
      (e : Bool)
      → PermittedEstimates p u tokens cost e
      → authorize p u tokens cost e ≡ record { allowed = true; escalation = e; reason = authorized }
  unfolding authorize
  authorize-whenever p u (some t) (some c) e h = ground arith
  authorize-whenever p u _ _ e h = ground arith

  -- A call is allowed exactly if the usage and the estimates are known and not negative, escalation
  -- is not asked for or is enabled, and no cap is passed by the call.
  pub authorize_iff :
      (p : ModelBudgetPolicy) (u : BudgetUsage) (tokens : Option ℤ) (cost : Option Amount)
      (e : Bool)
      → ((authorize p u tokens cost e).allowed ≡ true) ↔ PermittedEstimates p u tokens cost e
  authorize_iff p u tokens cost e = (
    authorize-only p u tokens cost e,
    (λ h. ap (λ (d : BudgetDecision). d.allowed) (authorize-whenever p u tokens cost e h)),
  )
