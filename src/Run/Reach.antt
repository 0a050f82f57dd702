-- ===== src/Run/Reach.antt =====
-- The states that a run can pass through, with its two counters, as a relation that does not
-- mention the loop.
use jamp.Prelude.{
  ℕ, suc, ◌≤◌, ◌≡◌, ◌≢◌, ◌⊎◌, true, false, Option, none, some, List, [], arith, ok, err, String,
}
use jamp.Prelude.Int.{pos, pos_part, leb_ℤ, ◌≤ℤ◌}
use jamp.Run.{
  Process, Call, Raised, exception, base_exception, StopKind, terminal, exhausted, budget, error,
  RunResult, admissible_candidates, act, recover,
}

module _ {S C : Type 0} (r : Process S C) where
  -- A turn is taken only from a state that is not terminal, within the budget.
  pub data Reach : S → ℕ → ℕ → Type 0 where
    start : {s : S} → r.initial ≡ ok s → Reach s 0 0
    applied :
        {s s' : S} {n k : ℕ} (cands : List C)
        → Reach s n k
        → r.is_terminal s ≡ ok false
        → leb_ℤ r.limit (pos k) ≡ false
        → admissible_candidates r s ≡ ok cands
        → cands ≢ []
        → act r s cands ≡ ok s'
        → Reach s' (suc n) (suc k)
    woken :
        {s s' : S} {n k : ℕ}
        → Reach s n k
        → r.is_terminal s ≡ ok false
        → leb_ℤ r.limit (pos k) ≡ false
        → admissible_candidates r s ≡ ok []
        → recover r s ≡ ok (some s')
        → Reach s' n (suc k)

  pub Reach-bounds : {s : S} {n k : ℕ} → Reach s n k → (n ≤ k) × (k ≤ pos_part r.limit)
  Reach-bounds (start e) = omega arith
  Reach-bounds (applied {n} {k} cands h t b e ne a) = ground (arith, Reach-bounds h)
  Reach-bounds (woken {n} {k} h t b e a) = ground (arith, Reach-bounds h)

  -- What a result says of the run, by the kind of its stop. The turn that finds nothing to do, or
  -- that fails, is counted.
  abbrev pub Ended : StopKind → String → S → ℕ → ℕ → Type 0
  Ended terminal detail s n k = Reach s n k × (r.is_terminal s ≡ ok true)
  Ended budget detail s n k = Reach s n k × (r.is_terminal s ≡ ok false) × (r.limit ≤ℤ pos k)
  Ended exhausted detail s n k =
      (j : ℕ) × (k ≡ suc j)
      × Reach s n j
      × (leb_ℤ r.limit (pos j) ≡ false)
      × (admissible_candidates r s ≡ ok [])
      × (recover r s ≡ ok none)
  Ended error detail s n k =
      (j : ℕ) × (cands : List C) × (k ≡ suc j)
      × Reach s n j
      × (leb_ℤ r.limit (pos j) ≡ false)
      × (admissible_candidates r s ≡ ok cands)
      × (cands ≢ [])
      × (act r s cands ≡ err (exception detail))

  abbrev pub Explains : RunResult S → Type 0
  Explains x = Ended x.stop_reason.kind x.stop_reason.detail x.state x.steps x.iterations

  -- What a call of `run` that raises says: a query or the hook raised at a state of the run, or an
  -- action raised something that is no `Exception`.
  pub data Escapes (e : Raised) : Type 0 where
    at_start : r.initial ≡ err e → Escapes e
    at_query :
        (s : S) {n k : ℕ}
        → Reach s n k
        → ((r.is_terminal s ≡ err e) ⊎ (admissible_candidates r s ≡ err e) ⊎ (recover r s ≡ err e))
        → Escapes e
    at_action :
        (s : S) (text : String) (cands : List C) {n k : ℕ}
        → Reach s n k
        → act r s cands ≡ err (base_exception text)
        → e ≡ base_exception text
        → Escapes e

  abbrev pub Outcome : Option (Call (RunResult S)) → Type 0
  Outcome none = ⊥
  Outcome (some (ok x)) = Explains x
  Outcome (some (err e)) = Escapes e
