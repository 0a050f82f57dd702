-- ===== src/Causal/Clock.antt =====
-- `VectorClock` of src/jamp/domain/causal.py.
use jamp.Prelude.{
  ℕ, ◌+◌, max, String, Bool, true, false, not, ◌&&◌, Option, none, some, List, [], ◌∷◌, ◌++◌,
  Except, ok, err, ◌>>=◌, ◌>>◌, require, any, leb, ltb, nat_beq, ◌==◌, if◌then◌else◌,
}
use jamp.Prelude.Int.{ℤ, pos, negsuc}
use jamp.Prelude.Text.{nonempty}
use jamp.Prelude.Dict.{Dict, lookup, insert, keys, contains}
use jamp.Prelude.Sort.{leb_text, sort}

pub data CausalRelation : Type 0 where
  before after concurrent equal : CausalRelation

pub data ClockError : Type 0 where
  value_error : ClockError

-- The components of a clock that was made: their keys differ, and they are a dict as they stand.
pub record VectorClock : Type 0 where
  pub components : Dict ℕ

-- The order of two pairs.
abbrev pub leb_pair : String × ℕ → String × ℕ → Bool
leb_pair (a, m) (b, n) = if a == b then leb m n else leb_text a b

abbrev pub same_pairs : Dict ℕ → Dict ℕ → Bool
same_pairs [] [] = true
same_pairs ((a, m) ∷ d) ((b, n) ∷ e) = (a == b && nat_beq m n) && same_pairs d e
same_pairs _ _ = false

abbrev pub full_keys : Dict ℕ → Bool
full_keys [] = true
full_keys ((k, n) ∷ d) = nonempty k && full_keys d

abbrev pub distinct_keys : Dict ℕ → Bool
distinct_keys [] = true
distinct_keys ((k, n) ∷ d) = not (contains k (keys d)) && distinct_keys d

-- The constructor, on values that are not negative.
unfoldable pub make_clock : Dict ℕ → Except ClockError VectorClock
make_clock components =
    require (same_pairs (sort leb_pair components) components) value_error
    >> require (full_keys components) value_error
    >> require (distinct_keys components) value_error
    >> ok (record { components = components })

-- The constructor: a negative value is refused like every other fault.
naturals : List (String × ℤ) → Except ClockError (Dict ℕ)
naturals [] = ok []
naturals ((k, pos n) ∷ rest) = naturals rest >>= λ d. ok ((k, n) ∷ d)
naturals ((k, negsuc n) ∷ rest) = err value_error

unfoldable pub vector_clock : List (String × ℤ) → Except ClockError VectorClock
unfolding make_clock naturals
vector_clock components = naturals components >>= make_clock

-- `VectorClock()`
abbrev pub empty : VectorClock
empty = record { components = [] }

-- `from_mapping`
unfoldable pub from_mapping : Dict ℕ → Except ClockError VectorClock
unfolding make_clock
from_mapping values = make_clock (sort leb_pair values)

abbrev pub or_zero : Option ℕ → ℕ
or_zero none = 0
or_zero (some n) = n

-- `d.get(event_id, 0)`
abbrev pub value_in : Dict ℕ → String → ℕ
value_in d k = or_zero (lookup k d)

abbrev pub value : VectorClock → String → ℕ
value c k = value_in c.components k

-- One of the clocks that are merged in.
unfoldable pub merge_into : Dict ℕ → Dict ℕ → Dict ℕ
merge_into merged [] = merged
merge_into merged ((k, n) ∷ rest) = merge_into (insert k (max (value_in merged k) n) merged) rest

unfoldable pub merge_all : Dict ℕ → List VectorClock → Dict ℕ
unfolding merge_into
merge_all merged [] = merged
merge_all merged (c ∷ cs) = merge_all (merge_into merged c.components) cs

unfoldable pub merge : VectorClock → List VectorClock → Except ClockError VectorClock
unfolding merge_all from_mapping
merge c others = from_mapping (merge_all c.components others)

unfoldable pub tick : VectorClock → String → Except ClockError VectorClock
unfolding from_mapping
tick c k = from_mapping (insert k (value c k + 1) c.components)

unfoldable pub relation : VectorClock → VectorClock → CausalRelation
relation a b =
    let all_keys = keys a.components ++ keys b.components in
    let less = any (λ k. ltb (value a k) (value b k)) all_keys in
    let greater = any (λ k. ltb (value b k) (value a k)) all_keys in
    if less && not greater
    then before
    else if greater && not less
    then after
    else if not less && not greater
    then equal
    else concurrent
