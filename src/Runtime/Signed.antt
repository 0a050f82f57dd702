-- ===== src/Runtime/Signed.antt =====
-- `JampVerdict` of src/jamp/runtime/verdict.py. `json.dumps`, HMAC-SHA256 and `float` of an integer are
-- parameters, a record `Signer`.
use jamp.Prelude.{
  ℕ, String, ◌≡◌, Bool, true, false, ◌&&◌, Option, none, some, List, [], ◌∷◌, map, Except, ok, err,
  ◌>>=◌, ◌>>◌, require, all, ltb, ◌==◌, if◌then◌else◌,
}
use jamp.Prelude.Int.{ℤ}
use jamp.Prelude.Text.{codes, nonempty, is_sha256}
use jamp.Canonical.{Value, null, bool, float, str, list, dict, Fields, end}
use jamp.Verdict.Schema.{obj, items}
use jamp.Runtime.Claims.{Claim, Item, claim, object, PythonError, type_error, value_error}

-- `dumps` has the options of `sign`, and raises a `ValueError` on a float that is not finite or a
-- `TypeError` on an object of another class; the result is UTF-8. `to_float` may overflow.
pub record Signer : Type 0 where
  pub dumps : Value → Except PythonError (List ℕ)
  pub hmac_sha256 : String → List ℕ → String
  pub hmac_sha256_lem :
      (secret : String) (bytes : List ℕ) → is_sha256 (hmac_sha256 secret bytes) ≡ true
  pub to_float : ℤ → Except PythonError ℕ

-- A timestamp is a float, its 64 bits. `model_verification` is set by the constructor.
pub record JampVerdict : Type 0 where
  pub trace_id : String
  pub status : String
  pub provider_model_id : Option String
  pub evidence_hash : String
  pub timestamp : ℕ
  pub signature : Option String
  pub execution_status : String
  pub model_verification : String
  pub claims : List Item
  pub aggregate_status : String
  pub critical_unverified : List String

abbrev pub or_null : Option String → Value
or_null none = null
or_null (some s) = str s

abbrev dict_or_null : Option Fields → Value
dict_or_null none = null
dict_or_null (some fs) = dict fs

-- `Claim.to_dict`
unfoldable pub claim_dict : Claim → Value
claim_dict c = obj (
    ("text", str c.content)
    ∷ ("type", str c.claim_type)
    ∷ ("source", or_null c.source)
    ∷ ("status", str c.status)
    ∷ ("evidence", dict_or_null c.evidence)
    ∷ ("reason", or_null c.reason)
    ∷ ("critical", bool c.critical)
    ∷ [])

-- `claim.to_dict() if isinstance(claim, Claim) else claim`
abbrev pub item_value : Item → Value
item_value (claim c) = claim_dict c
item_value (object fs) = dict fs

abbrev texts : List String → Value
texts ss = list (items (map (λ s. str s) ss))

-- The keys of a verdict's dict but the signature, and more.
abbrev pub payload_with : JampVerdict → List (String × Value) → Value
payload_with v more = obj (
    ("trace_id", str v.trace_id)
    ∷ ("status", str v.status)
    ∷ ("provider_model_id", or_null v.provider_model_id)
    ∷ ("evidence_hash", str v.evidence_hash)
    ∷ ("timestamp", float v.timestamp)
    ∷ ("execution_status", str v.execution_status)
    ∷ ("model_verification", str v.model_verification)
    ∷ ("claims", list (items (map item_value v.claims)))
    ∷ ("aggregate_status", str v.aggregate_status)
    ∷ ("critical_unverified", texts v.critical_unverified)
    ∷ more)

-- `_payload`
unfoldable pub payload : JampVerdict → Value
payload v = payload_with v []

unfoldable pub to_dict : JampVerdict → Value
to_dict v = payload_with v (("signature", or_null v.signature) ∷ [])

abbrev claim_fields : Value → Fields
claim_fields (dict fs) = fs
claim_fields _ = end

-- `asdict` turns the claims into dicts too.
abbrev pub as_object : Item → Item
unfolding claim_dict
as_object (claim c) = object (claim_fields (claim_dict c))
as_object (object fs) = object fs

unfoldable pub sign : Signer → String → JampVerdict → Except PythonError JampVerdict
sign g secret v = require (nonempty secret) value_error >> g.dumps (payload v) >>= λ bytes.
    ok (record v { signature = some (g.hmac_sha256 secret bytes); claims = map as_object v.claims })

abbrev or_empty : Option String → String
or_empty none = ""
or_empty (some s) = s

abbrev pub is_ascii : String → Bool
is_ascii s = all (λ c. ltb c 128) (codes s)

-- `hmac.compare_digest` of two texts, which must be ASCII.
abbrev pub compare_digest : String → String → Except PythonError Bool
compare_digest a b = if is_ascii a && is_ascii b then ok (a == b) else err type_error

abbrev compared : Signer → String → JampVerdict → Option String → Except PythonError Bool
compared g secret v none = ok false
compared g secret v (some s) =
    if nonempty secret
    then (sign g secret v >>= λ signed. compare_digest s (or_empty signed.signature))
    else ok false

unfoldable pub verify : Signer → String → JampVerdict → Except PythonError Bool
verify g secret v = compared g secret v v.signature
