-- ===== src/Run/Tests.antt =====
-- A process that counts down, with a hook that refills once, and runs of it.
use jamp.Prelude.{
  ℕ, ◌≤◌, ◌-◌, ◌≡◌, refl, none, some, List, [], ◌∷◌, ok, err, nat_beq, leb, if◌then◌else◌,
}
use jamp.Prelude.Int.{ℤ, pos}
use jamp.Run.{Process, terminal, budget, error, exception, admit, turn, run}
use jamp.Run.Reach.{Outcome}
use jamp.Run.Total.{run-Outcome}
use jamp.Run.Bounds.{run_bounds}

abbrev first : List ℕ → ℕ
first [] = 0
first (c ∷ cs) = c

-- From n the moves are to take 1 or 2; a state above 90 is broken.
abbrev countdown : ℤ → ℕ → Process ℕ ℕ
countdown limit from = record {
  limit = limit;
  initial = ok from;
  candidates = λ s. ok (2 ∷ 1 ∷ []);
  admissible = λ s c. ok (leb c s);
  apply = λ s c. if leb 90 s then err (exception "too large") else ok (s - c);
  is_terminal = λ s. ok (nat_beq s 3);
  strategy = λ s cs. ok (first cs);
  on_empty = some (λ s. ok (if nat_beq s 0 then some 7 else none));
}

run_to_terminal :
    run (countdown (pos 10) 6)
    ≡ some (
        ok (record {
          state = 3;
          steps = 5;
          iterations = 6;
          stop_reason = record { kind = terminal; detail = "" };
        }))
unfolding run turn admit
run_to_terminal = refl

run_over_budget :
    run (countdown (pos 2) 8)
    ≡ some (
        ok (record {
          state = 4;
          steps = 2;
          iterations = 2;
          stop_reason = record { kind = budget; detail = "" };
        }))
unfolding run turn admit
run_over_budget = refl

run_into_error :
    run (countdown (pos 2) 95)
    ≡ some (
        ok (record {
          state = 95;
          steps = 0;
          iterations = 1;
          stop_reason = record { kind = error; detail = "too large" };
        }))
unfolding run turn admit
run_into_error = refl

run-Outcome_example : Outcome (countdown (pos 10) 6) (run (countdown (pos 10) 6))
run-Outcome_example = run-Outcome (countdown (pos 10) 6)

run_bounds_example : (5 ≤ 6) × (6 ≤ 10)
run_bounds_example = run_bounds (countdown (pos 10) 6) _ run_to_terminal
