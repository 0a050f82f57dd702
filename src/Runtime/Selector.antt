-- ===== src/Runtime/Selector.antt =====
-- `ModelSelector` of src/jamp/runtime/selector.py.
use jamp.Prelude.{
  ℕ, String, none, some, List, [], ◌∷◌, Except, ok, err, ◌>>◌, require, length, nat_beq, ◌==◌,
  if◌then◌else◌,
}
use jamp.Prelude.Dict.{Dict, lookup}

pub data SelectError : Type 0 where
  key_error cardinality_mismatch : SelectError

-- The pair that `select` returns: REFUSE, or EXECUTE with the whole pool or with one model.
pub data Selection : Type 0 where
  refuse : Selection
  execute_pool : List String → Selection
  execute : String → Selection

-- `POOL_EXPECTATIONS`
abbrev pub pool_expectations : Dict ℕ
pool_expectations =
    ("search_and_extraction", 12)
    ∷ ("tool_execution_agent", 7)
    ∷ ("long_context_analysis", 0)
    ∷ ("strict_compliance_safety", 2)
    ∷ []

abbrev chosen : List String → String → Selection
chosen [] profile = refuse
chosen (m ∷ ms) profile =
    if profile == "strict_compliance_safety" then execute_pool (m ∷ ms) else execute m

unfoldable pub select : List String → String → Except SelectError Selection
select pool profile = elim (lookup profile pool_expectations) [
  | none ↦ err key_error
  | some expected ↦
      require (nat_beq (length pool) expected) cardinality_mismatch >> ok (chosen pool profile)
]
