-- ===== src/Run/Bounds.antt =====
-- The counters of a result.
use jamp.Prelude.{ℕ, ◌≤◌, ◌≡◌, subst, some, ok, arith, String}
use jamp.Prelude.Int.{pos_part}
use jamp.Run.{Process, StopKind, terminal, exhausted, budget, error, RunResult, run}
use jamp.Run.Reach.{Reach-bounds, Ended, Explains, Outcome}
use jamp.Run.Total.{run-Outcome}

module _ {S C : Type 0} (r : Process S C) where
  run-Explains : (x : RunResult S) → run r ≡ some (ok x) → Explains r x
  run-Explains x e = subst (Outcome r) e (run-Outcome r)

  Ended-bounds :
      (kind : StopKind) (detail : String) (s : S) (n k : ℕ)
      → Ended r kind detail s n k
      → (n ≤ k) × (k ≤ pos_part r.limit)
  Ended-bounds terminal detail s n k e = Reach-bounds r e.0
  Ended-bounds budget detail s n k e = Reach-bounds r e.0
  Ended-bounds exhausted detail s n k e = ground (arith, Reach-bounds r e.2)
  Ended-bounds error detail s n k e = ground (arith, Reach-bounds r e.3)

  -- In every result the calls of `apply` that succeeded are at most the turns of the loop, and the
  -- turns are at most the budget (none if the budget is negative).
  pub run_bounds :
      (x : RunResult S)
      → run r ≡ some (ok x)
      → (x.steps ≤ x.iterations) × (x.iterations ≤ pos_part r.limit)
  run_bounds x e =
      Ended-bounds x.stop_reason.kind x.stop_reason.detail x.state x.steps x.iterations
        (run-Explains x e)
