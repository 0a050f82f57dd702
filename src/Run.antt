-- ===== src/Run.antt =====
-- `run` of src/jamp/run.py, the loop that drives a rewrite process. The process is an argument: a
-- record of the methods of the protocol `Run`, any of which may raise. The loop takes fuel,
-- one more than the budget.
pub mod Reach
pub mod Total
pub mod Bounds
mod Tests
use jamp.Prelude.{
  ℕ, zero, suc, ◌+◌, ◌≤◌, String, ◌≡◌, Bool, true, false, Option, none, some, List, [], ◌∷◌, Except,
  ok, err, ◌>>=◌, if◌then◌else◌,
}
use jamp.Prelude.Int.{ℤ, pos, pos_part, leb_ℤ}

-- What Python code can raise: an `Exception` with its `repr`, or another `BaseException`.
pub data Raised : Type 0 where
  exception : String → Raised
  base_exception : String → Raised

abbrev pub Call : Type 0 → Type 0
Call A = Except Raised A

pub data StopKind : Type 0 where
  terminal exhausted budget error : StopKind

pub record StopReason : Type 0 where
  pub kind : StopKind
  pub detail : String

pub record RunResult (S : Type 0) : Type 0 where
  pub state : S
  pub steps : ℕ
  pub iterations : ℕ
  pub stop_reason : StopReason

-- `on_empty` is optional, and may decline by returning `None`.
pub record Process (S C : Type 0) : Type 0 where
  pub limit : ℤ
  pub initial : Call S
  pub candidates : S → Call (List C)
  pub admissible : S → C → Call Bool
  pub apply : S → C → Call S
  pub is_terminal : S → Call Bool
  pub strategy : S → List C → Call C
  pub on_empty : Option (S → Call (Option S))

module _ {S C : Type 0} (r : Process S C) where
  -- The list comprehension: the first `admissible` that raises ends it.
  admit : S → List C → Call (List C)
  admit s [] = ok []
  admit s (c ∷ cs) =
      let rest = admit s cs in
      r.admissible s c >>= λ keep. rest >>= λ kept. ok (if keep then c ∷ kept else kept)

  pub admissible_candidates : S → Call (List C)
  unfolding admit
  admissible_candidates s = r.candidates s >>= admit s

  -- The body of the `try`: `state` is assigned only when both calls return.
  pub act : S → List C → Call S
  act s cands = r.strategy s cands >>= r.apply s

  -- `None` from the hook, and no hook at all, both stop the run.
  pub recover : S → Call (Option S)
  recover s = elim r.on_empty [ none ↦ ok none | some hook ↦ hook s ]

abbrev pub stop : {S : Type 0} → S → ℕ → ℕ → StopKind → String → Call (RunResult S)
stop s steps iterations kind detail = ok (record {
  state = s;
  steps = steps;
  iterations = iterations;
  stop_reason = record { kind = kind; detail = detail };
})

-- How one turn of the loop ends: it goes on (an `apply` counts a step), or the run is over.
pub data Turn (S : Type 0) : Type 0 where
  stepped : S → Turn S
  recovered : S → Turn S
  over : Call (RunResult S) → Turn S

module _ {S C : Type 0} (r : Process S C) where
  -- `except Exception`: any other `BaseException` propagates.
  acted : S → ℕ → ℕ → Call S → Turn S
  acted s steps iterations (ok s') = stepped s'
  acted s steps iterations (err (exception text)) = over (stop s steps iterations error text)
  acted s steps iterations (err (base_exception text)) = over (err (base_exception text))

  emptied : S → ℕ → ℕ → Call (Option S) → Turn S
  emptied s steps iterations (ok none) = over (stop s steps iterations exhausted "")
  emptied s steps iterations (ok (some s')) = recovered s'
  emptied s steps iterations (err e) = over (err e)

  chosen : S → ℕ → ℕ → Call (List C) → Turn S
  unfolding acted emptied act recover
  chosen s steps iterations (err e) = over (err e)
  chosen s steps iterations (ok []) = emptied s steps iterations (recover r s)
  chosen s steps iterations (ok (c ∷ cs)) = acted s steps iterations (act r s (c ∷ cs))

  -- The guards at the head of the loop, then the body, which has counted the iteration.
  guarded : S → ℕ → ℕ → Call Bool → Turn S
  unfolding chosen admissible_candidates
  guarded s steps iterations (err e) = over (err e)
  guarded s steps iterations (ok true) = over (stop s steps iterations terminal "")
  guarded s steps iterations (ok false) =
      if leb_ℤ r.limit (pos iterations)
      then over (stop s steps iterations budget "")
      else chosen s steps (suc iterations) (admissible_candidates r s)

  turn : S → ℕ → ℕ → Turn S
  unfolding guarded
  turn s steps iterations = guarded s steps iterations (r.is_terminal s)

  -- `None` means that the fuel ran out.
  loop : ℕ → S → ℕ → ℕ → Option (Call (RunResult S))
  loop zero s steps iterations = none
  loop (suc fuel) s steps iterations = elim (turn s steps iterations) [
    | stepped s' ↦ loop fuel s' (suc steps) (suc iterations)
    | recovered s' ↦ loop fuel s' steps (suc iterations)
    | over result ↦ some result
  ]

  enough : ℕ
  enough = suc (pos_part r.limit)

  pub run : Option (Call (RunResult S))
  unfolding loop enough
  run = elim r.initial [ ok s ↦ loop enough s 0 0 | err e ↦ some (err e) ]
