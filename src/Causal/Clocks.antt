-- ===== src/Causal/Clocks.antt =====
-- `compute_vector_clocks` and `CausalOrdering` of src/jamp/domain/causal.py.
use jamp.Prelude.{String, Option, none, some, List, [], ◌∷◌, Except, ok, err, ◌>>=◌}
use jamp.Prelude.Dict.{Dict, lookup, insert, keys}
use jamp.Prelude.Sort.{leb_text, sort}
use jamp.Causal.Clock.{VectorClock, ClockError, empty, merge, tick}
use jamp.Causal.Order.{EventNode, CausalConsistencyError, sort_causal_order}

-- What the two functions raise.
pub data ClocksError : Type 0 where
  consistency : CausalConsistencyError → ClocksError
  clock : ClockError → ClocksError
  key_error : ClocksError

abbrev pub Clocks : Type 0
Clocks = Dict VectorClock

abbrev pub as_clock : Except ClockError VectorClock → Except ClocksError VectorClock
as_clock (ok c) = ok c
as_clock (err e) = err (clock e)

-- `[clocks[parent_id] for parent_id in event.parent_ids]`
unfoldable pub parent_clocks : Clocks → List String → Except ClocksError (List VectorClock)
parent_clocks clocks [] = ok []
parent_clocks clocks (p ∷ ps) =
    let rest = parent_clocks clocks ps in
    elim (lookup p clocks) [ none ↦ err key_error | some c ↦ rest >>= λ cs. ok (c ∷ cs) ]

abbrev pub base : List VectorClock → Except ClocksError VectorClock
base [] = ok empty
base (c ∷ cs) = as_clock (merge empty (c ∷ cs))

-- One event of the loop.
unfoldable pub clock_event : Clocks → EventNode → Except ClocksError Clocks
unfolding parent_clocks
clock_event clocks e = parent_clocks clocks e.parent_ids >>= base >>= λ b.
    as_clock (tick b e.event_id) >>= λ c. ok (insert e.event_id c clocks)

unfoldable pub clock_events : Clocks → List EventNode → Except ClocksError Clocks
unfolding clock_event
clock_events clocks [] = ok clocks
clock_events clocks (e ∷ es) = clock_event clocks e >>= λ more. clock_events more es

-- `tuple((event_id, clocks[event_id]) for event_id in sorted(clocks))`
abbrev by_id : Clocks → List String → List (String × VectorClock)
by_id clocks [] = []
by_id clocks (k ∷ ks) =
    let rest = by_id clocks ks in elim (lookup k clocks) [ none ↦ rest | some c ↦ (k, c) ∷ rest ]

abbrev pub listed : Clocks → List (String × VectorClock)
listed clocks = by_id clocks (sort leb_text (keys clocks))

abbrev pub of_ordered :
    Except CausalConsistencyError (List EventNode)
    → Except ClocksError (List (String × VectorClock))
of_ordered (err e) = err (consistency e)
of_ordered (ok ordered) = clock_events [] ordered >>= λ clocks. ok (listed clocks)

-- `None` means that the fuel of the sort ran out.
unfoldable pub compute_vector_clocks :
    List EventNode → Option (Except ClocksError (List (String × VectorClock)))
unfolding clock_events
compute_vector_clocks events = elim (sort_causal_order events) [
  | none ↦ none
  | some r ↦ some (of_ordered r)
]
