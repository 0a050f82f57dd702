-- ===== src/Runtime/Claims.antt =====
-- `Claim` and `aggregate_verdict` of src/jamp/runtime/verdict.py. Python's `str` of a value that is not a
-- text is a parameter `show`.
use jamp.Prelude.{
  zero, suc, String, Bool, true, false, not, ◌&&◌, ◌||◌, Option, none, some, List, [], ◌∷◌, Except,
  ok, err, ◌>>=◌, any, all, nat_beq, ◌==◌, if◌then◌else◌,
}
use jamp.Prelude.Int.{ℤ, pos, negsuc}
use jamp.Prelude.Text.{nonempty}
use jamp.Canonical.{
  Value, null, bool, int, float, str, list, tuple, dict, unsupported, nil, cons, Fields, end, field,
}
use jamp.Ledger.{get_field}
use jamp.Verdict.Stages.{hashable}
use Prim.Native.Nat.{◌%◌, ◌^◌}

pub record Claim : Type 0 where
  pub content : String
  pub claim_type : String
  pub source : Option String
  pub status : String
  pub evidence : Option Fields
  pub reason : Option String
  pub critical : Bool

-- `Claim | dict[str, Any]`
pub data Item : Type 0 where
  claim : Claim → Item
  object : Fields → Item

-- `bool(value)`. A float is zero if all its bits but the sign are; an object of another class is
-- taken to be true.
abbrev is_nonzero : ℤ → Bool
is_nonzero (pos zero) = false
is_nonzero (pos (suc n)) = true
is_nonzero (negsuc n) = true

unfoldable pub truthy : Value → Bool
unfolding nonempty
truthy null = false
truthy (bool b) = b
truthy (int n) = is_nonzero n
truthy (float bits) = not (nat_beq (bits % 2 ^ 63) 0)
truthy (str s) = nonempty s
truthy (list nil) = false
truthy (list (cons x xs)) = true
truthy (tuple nil) = false
truthy (tuple (cons x xs)) = true
truthy (dict end) = false
truthy (dict (field k x fs)) = true
truthy unsupported = true

abbrev or_default : Value → Option Value → Value
or_default d none = d
or_default d (some v) = v

-- `_claim_value` at the three keys that are read, with the defaults given there.
abbrev pub status_value : Item → Value
status_value (claim c) = str c.status
status_value (object fs) = or_default (str "INCONCLUSIVE") (get_field "status" fs)

abbrev pub critical_value : Item → Value
critical_value (claim c) = bool c.critical
critical_value (object fs) = or_default (bool false) (get_field "critical" fs)

abbrev pub text_value : Item → Value
text_value (claim c) = str c.content
text_value (object fs) = or_default (str "") (get_field "text" fs)

abbrev pub is_verified : String → Bool
is_verified s = s == "VERIFIED" || s == "E4_VERIFIED"

abbrev pub is_contradicted : String → Bool
is_contradicted s = s == "CONTRADICTED" || s == "E4_CONTRADICTED"

pub data Aggregate : Type 0 where
  verified contradicted inconclusive partial : Aggregate

-- `str(value)`
abbrev pub as_text : (Value → String) → Value → String
as_text show (str s) = s
as_text show v = show v

abbrev pub status_text : (Value → String) → Item → String
status_text show c = as_text show (status_value c)

-- A critical claim that is not verified.
abbrev pub is_open : (Value → String) → Item → Bool
is_open show c = truthy (critical_value c) && not (is_verified (status_text show c))

unfoldable pub aggregate_verdict : (Value → String) → List Item → Aggregate
aggregate_verdict show [] = partial
aggregate_verdict show (c ∷ cs) =
    if any (λ x. is_contradicted (status_text show x)) (c ∷ cs)
    then contradicted
    else if any (is_open show) (c ∷ cs)
    then inconclusive
    else if all (λ x. is_verified (status_text show x)) (c ∷ cs)
    then verified
    else partial

pub data PythonError : Type 0 where
  type_error value_error overflow_error : PythonError

-- `value in {"VERIFIED", "E4_VERIFIED"}`
abbrev pub verified_value : Value → Bool
verified_value (str s) = is_verified s
verified_value _ = false

-- The membership hashes the status, and is reached for a critical claim only.
abbrev listed : Item → Except PythonError Bool
listed c =
    if truthy (critical_value c)
    then if hashable (status_value c)
      then ok (not (verified_value (status_value c)))
      else err type_error
    else ok false

unfoldable pub critical_unverified_claims :
    (Value → String) → List Item → Except PythonError (List String)
unfolding hashable
critical_unverified_claims show [] = ok []
critical_unverified_claims show (c ∷ cs) = listed c >>= λ keep.
    critical_unverified_claims show cs >>= λ rest.
    ok (if keep then as_text show (text_value c) ∷ rest else rest)
