-- ===== src/Runtime/Parse.antt =====
-- `JampVerdict.from_dict` of src/jamp/runtime/verdict.py.
use jamp.Prelude.{
  ℕ, String, ◌≡◌, refl, Bool, true, false, not, Option, none, some, List, [], ◌∷◌, map, any, Except,
  ok, err, ◌>>=◌, ◌>>◌, require,
}
use jamp.Prelude.Int.{ℤ}
use jamp.Prelude.Text.{nonempty}
use jamp.Prelude.Dict.{contains}
use jamp.Canonical.{Value, null, int, float, str, list, dict, Items, nil, cons, Fields}
use jamp.Ledger.{get_field}
use jamp.Verdict.Schema.{items}
use jamp.Verdict.Stages.{hashable}
use jamp.Runtime.Claims.{Item, claim, object, PythonError, type_error, value_error}
use jamp.Runtime.Signed.{Signer, JampVerdict, item_value, to_dict}

abbrev Parsed : Type 0 → Type 0
Parsed A = Except PythonError A

-- `value.get(key, default)`
abbrev get_or : Value → String → Fields → Value
get_or d k fs = elim (get_field k fs) [ none ↦ d | some v ↦ v ]

abbrev as_str : Value → Parsed String
as_str (str s) = ok s
as_str _ = err value_error

abbrev full_str : Value → Parsed String
full_str v = as_str v >>= λ s. require (nonempty s) value_error >> ok s

abbrev null_or_str : Value → Parsed (Option String)
null_or_str null = ok none
null_or_str (str s) = ok (some s)
null_or_str _ = err value_error

-- `value not in {...}` hashes the value.
abbrev one_of_str : List String → Value → Parsed String
one_of_str allowed (str s) = require (contains s allowed) value_error >> ok s
one_of_str allowed _ = err value_error

abbrev one_of : List String → Value → Parsed String
one_of allowed v = require (hashable v) type_error >> one_of_str allowed v

abbrev pub statuses : List String
statuses = "VERIFIED" ∷ "CONTRADICTED" ∷ "INCONCLUSIVE" ∷ []

abbrev pub aggregates : List String
aggregates = "VERIFIED" ∷ "CONTRADICTED" ∷ "INCONCLUSIVE" ∷ "PARTIAL" ∷ []

-- A timestamp that is read, before `float`.
pub data Time : Type 0 where
  whole : ℤ → Time
  double : ℕ → Time

abbrev as_time : Value → Parsed Time
as_time (int n) = ok (whole n)
as_time (float bits) = ok (double bits)
as_time _ = err value_error

abbrev as_float : Signer → Time → Parsed ℕ
as_float g (whole n) = g.to_float n
as_float g (double bits) = ok bits

abbrev as_fields : Value → Parsed Item
as_fields (dict fs) = ok (object fs)
as_fields _ = err value_error

-- Every member of a list, read in order.
pub each : {A : Type 0} → (Value → Parsed A) → Items → Parsed (List A)
each f nil = ok []
each f (cons v vs) = let rest = each f vs in f v >>= λ a. rest >>= λ more. ok (a ∷ more)

pub each_of : {A : Type 0} → (Value → Parsed A) → Value → Parsed (List A)
unfolding each
each_of f (list vs) = each f vs
each_of f _ = err value_error

unfoldable pub from_fields : Signer → Fields → Parsed JampVerdict
unfolding each_of hashable
from_fields g fs = full_str (get_or null "trace_id" fs) >>= λ trace.
    one_of statuses (get_or null "status" fs) >>= λ status.
    null_or_str (get_or null "provider_model_id" fs) >>= λ model.
    full_str (get_or null "evidence_hash" fs) >>= λ evidence.
    as_time (get_or null "timestamp" fs) >>= λ time.
    null_or_str (get_or null "signature" fs) >>= λ signature.
    each_of as_fields (get_or (list nil) "claims" fs) >>= λ claims.
    each_of as_str (get_or (list nil) "critical_unverified" fs) >>= λ critical.
    as_str (get_or (str "EXECUTE") "execution_status" fs) >>= λ execution.
    as_str (get_or (str status) "model_verification" fs) >>= λ verification.
    one_of aggregates (get_or (str "PARTIAL") "aggregate_status" fs) >>= λ aggregate.
    as_float g time >>= λ timestamp. ok (record {
      trace_id = trace;
      status = status;
      provider_model_id = model;
      evidence_hash = evidence;
      timestamp = timestamp;
      signature = signature;
      execution_status = execution;
      model_verification = verification;
      claims = claims;
      aggregate_status = aggregate;
      critical_unverified = critical;
    })

-- `from_dict`
unfoldable pub from_dict : Signer → Value → Parsed JampVerdict
from_dict g (dict fs) = from_fields g fs
from_dict g _ = err value_error

-- The verdicts that the contract describes: their claims are dicts.
abbrev is_object : Item → Bool
is_object (claim c) = false
is_object (object fs) = true

pub record IsPublic (v : JampVerdict) : Type 0 where
  pub trace_id : nonempty v.trace_id ≡ true
  pub status : contains v.status statuses ≡ true
  pub evidence_hash : nonempty v.evidence_hash ≡ true
  pub aggregate_status : contains v.aggregate_status aggregates ≡ true
  pub claims : any (λ i. not (is_object i)) v.claims ≡ false

each-objects :
    (is : List Item)
    → any (λ i. not (is_object i)) is ≡ false
    → each as_fields (items (map item_value is)) ≡ ok is
unfolding each
each-objects [] h = refl
each-objects (claim c ∷ is) h = absurd (cc h)
each-objects (object fs ∷ is) h = rw (each-objects is h)

each-texts : (ss : List String) → each as_str (items (map (λ s. str s) ss)) ≡ ok ss
unfolding each
each-texts [] = refl
each-texts (s ∷ ss) = rw (each-texts ss)

null_or_str-round :
    (o : Option String) → null_or_str (elim o [ none ↦ null | some s ↦ str s ]) ≡ ok o
null_or_str-round none = refl
null_or_str-round (some s) = refl

module _ (g : Signer) where
  -- What `to_dict` writes of a verdict that keeps the contract, `from_dict` reads back as it was.
  pub from_dict-to_dict : (v : JampVerdict) → IsPublic v → from_dict g (to_dict v) ≡ ok v
  unfolding from_dict from_fields to_dict each_of hashable
  from_dict-to_dict v p = rw (
    p.trace_id,
    p.status,
    p.evidence_hash,
    p.aggregate_status,
    null_or_str-round v.provider_model_id,
    null_or_str-round v.signature,
    each-objects v.claims p.claims,
    each-texts v.critical_unverified,
  )
