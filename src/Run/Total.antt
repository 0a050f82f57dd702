-- ===== src/Run/Total.antt =====
-- The end of the loop of `run`, and how its result comes about.
use jamp.Prelude.{
  ℕ, zero, suc, ◌+◌, ◌<◌, ◌≡◌, refl, inl, inr, Bool, true, false, Option, none, some, List, [], ◌∷◌,
  arith, ok, err, Bool-cases,
}
use jamp.Prelude.Int.{pos, pos_part, leb_ℤ}
use jamp.Run.{
  Process, Call, exception, base_exception, Turn, stepped, recovered, over, admissible_candidates,
  act, recover, acted, emptied, chosen, guarded, turn, loop, enough, run,
}
use jamp.Run.Reach.{
  Reach, start, applied, woken, Reach-bounds, at_start, at_query, at_action, Outcome,
}

module _ {S C : Type 0} (r : Process S C) where
  abbrev TurnOk : S → ℕ → ℕ → Turn S → Type 0
  TurnOk s n k (stepped s') = Reach r s' (suc n) (suc k)
  TurnOk s n k (recovered s') = Reach r s' n (suc k)
  TurnOk s n k (over result) = Outcome r (some result)

  module _ {s : S} {n k : ℕ} (h : Reach r s n k) (live : r.is_terminal s ≡ ok false)
      (room : leb_ℤ r.limit (pos k) ≡ false) where
    acted-TurnOk :
        (cands : List C) (c : C) (result : Call S)
        → admissible_candidates r s ≡ ok (c ∷ cands)
        → act r s (c ∷ cands) ≡ result
        → TurnOk s n k (acted r s n (suc k) result)
    unfolding acted
    acted-TurnOk cands c (ok s') e a = applied (c ∷ cands) h live room e (λ x. cc x) a
    acted-TurnOk cands c (err (exception text)) e a =
        (k, c ∷ cands, refl, h, room, e, (λ x. cc x), a)
    acted-TurnOk cands c (err (base_exception text)) e a = at_action s text (c ∷ cands) h a refl

    emptied-TurnOk :
        (result : Call (Option S))
        → admissible_candidates r s ≡ ok []
        → recover r s ≡ result
        → TurnOk s n k (emptied r s n (suc k) result)
    unfolding emptied
    emptied-TurnOk (ok none) e a = (k, refl, h, room, e, a)
    emptied-TurnOk (ok (some s')) e a = woken h live room e a
    emptied-TurnOk (err x) e a = at_query s h (inr (inr a))

    chosen-TurnOk :
        (result : Call (List C))
        → admissible_candidates r s ≡ result
        → TurnOk s n k (chosen r s n (suc k) result)
    unfolding chosen
    chosen-TurnOk (err x) e = at_query s h (inr (inl e))
    chosen-TurnOk (ok []) e = emptied-TurnOk (recover r s) e refl
    chosen-TurnOk (ok (c ∷ cs)) e = acted-TurnOk cs c (act r s (c ∷ cs)) e refl

  guarded-TurnOk :
      {s : S} {n k : ℕ} (result : Call Bool)
      → Reach r s n k
      → r.is_terminal s ≡ result
      → TurnOk s n k (guarded r s n k result)
  unfolding guarded
  guarded-TurnOk {s} (err x) h e = at_query s h (inl e)
  guarded-TurnOk (ok true) h e = (h, e)
  guarded-TurnOk {s} {n} {k} (ok false) h e = elim (Bool-cases (leb_ℤ r.limit (pos k))) [
    | inl spent ↦ rw spent (h, e, ground arith)
    | inr room ↦ rw room (chosen-TurnOk h e room (admissible_candidates r s) refl)
  ]

  turn-TurnOk : {s : S} {n k : ℕ} → Reach r s n k → TurnOk s n k (turn r s n k)
  unfolding turn
  turn-TurnOk {s} h = guarded-TurnOk (r.is_terminal s) h refl

  -- Fuel above the rounds that the budget still allows is enough.
  loop-Outcome :
      (fuel : ℕ) {s : S} {n k : ℕ}
      → Reach r s n k
      → pos_part r.limit < fuel + k
      → Outcome r (loop r fuel s n k)
  unfolding loop
  loop-Outcome zero {s} {n} {k} h m = absurd (omega (arith, Reach-bounds r h))
  loop-Outcome (suc fuel) {s} {n} {k} h m =
      (elim (turn r s n k)
          as (λ t.
            TurnOk s n k t
            → Outcome r (elim t [
              | stepped s' ↦ loop r fuel s' (suc n) (suc k)
              | recovered s' ↦ loop r fuel s' n (suc k)
              | over result ↦ some result
            ])) [
              | stepped s' ↦ λ h'. loop-Outcome fuel h' (omega arith)
              | recovered s' ↦ λ h'. loop-Outcome fuel h' (omega arith)
              | over result ↦ λ h'. h'
            ])
        (turn-TurnOk h)

  start-Outcome :
      (first : Call S)
      → r.initial ≡ first
      → Outcome r (elim first [ ok s ↦ loop r (enough r) s 0 0 | err e ↦ some (err e) ])
  unfolding enough
  start-Outcome (ok s) e = loop-Outcome (suc (pos_part r.limit)) (start e) (omega arith)
  start-Outcome (err x) e = at_start e

  -- A run of any process ends: it returns a result that is explained by the states it passed
  -- through (the counters are those of the last state, the stop is for the reason given), or it
  -- raises what a query, the hook or an action raised at such a state.
  pub run-Outcome : Outcome r (run r)
  unfolding run
  run-Outcome = start-Outcome r.initial refl
