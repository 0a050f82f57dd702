-- ===== src/Canonical.antt =====
-- src/jamp/research/canonical.py: the values that may be hashed, their normal form, and the digest.
-- `jcs.canonicalize` and SHA-256 are parameters, a record `Hasher`.
mod Tests
pub mod Normal
use Prim.Native.Nat.{◌/◌, ◌%◌, ◌^◌}
use jamp.Prelude.{
  ℕ, String, ◌≡◌, Bool, true, not, Option, none, some, List, Except, ok, err, ◌>>=◌, nat_beq,
  if◌then◌else◌,
}
use jamp.Prelude.Int.{ℤ}
use jamp.Prelude.Text.{is_sha256}

-- A key of a Python dict: a text, or anything else that hashes.
pub data Key : Type 0 where
  text : String → Key
  other : Key

-- A Python value. A float is its 64 bits; `unsupported` is an object of any other class.
mutual
  pub data Value : Type 0 where
    null : Value
    bool : Bool → Value
    int : ℤ → Value
    float : ℕ → Value
    str : String → Value
    list : Items → Value
    tuple : Items → Value
    dict : Fields → Value
    unsupported : Value

  pub data Items : Type 0 where
    nil : Items
    cons : Value → Items → Items

  -- The entries of a dict, in insertion order; the keys of a dict differ.
  pub data Fields : Type 0 where
    end : Fields
    field : Key → Value → Fields → Fields

-- A normalized value: what `jcs.canonicalize` receives.
mutual
  pub data Json : Type 0 where
    jnull : Json
    jbool : Bool → Json
    jint : ℤ → Json
    jfloat : ℕ → Json
    jstr : String → Json
    jarr : Elements → Json
    jobj : Members → Json

  pub data Elements : Type 0 where
    jnil : Elements
    jcons : Json → Elements → Elements

  pub data Members : Type 0 where
    jend : Members
    member : String → Json → Members → Members

pub data CanonicalizationError : Type 0 where
  not_finite key_not_text unsupported_type not_representable : CanonicalizationError

abbrev pub Canonical : Type 0 → Type 0
Canonical A = Except CanonicalizationError A

-- `math.isfinite`: the exponent field of an IEEE double is not all ones.
unfoldable pub is_finite : ℕ → Bool
is_finite bits = not (nat_beq (bits / 2 ^ 52 % 2048) 2047)

unfoldable mutual
  unfolding is_finite

  pub normalize : Value → Canonical Json
  normalize null = ok jnull
  normalize (bool b) = ok (jbool b)
  normalize (int n) = ok (jint n)
  normalize (float bits) = if is_finite bits then ok (jfloat bits) else err not_finite
  normalize (str s) = ok (jstr s)
  normalize (list xs) = normalize_items xs >>= λ es. ok (jarr es)
  normalize (tuple xs) = normalize_items xs >>= λ es. ok (jarr es)
  normalize (dict fs) = normalize_fields fs >>= λ ms. ok (jobj ms)
  normalize unsupported = err unsupported_type

  pub normalize_items : Items → Canonical Elements
  normalize_items nil = ok jnil
  normalize_items (cons x xs) = normalize x >>= λ e. normalize_items xs >>= λ es. ok (jcons e es)

  pub normalize_fields : Fields → Canonical Members
  normalize_fields end = ok jend
  normalize_fields (field (text k) x fs) =
      normalize x >>= λ e. normalize_fields fs >>= λ ms. ok (member k e ms)
  normalize_fields (field other x fs) = err key_not_text

-- What the code takes from outside. `canonicalize` is RFC 8785 (the package `jcs`), `none` where
-- it raises or returns neither text nor bytes; `sha256` is the hexadecimal digest of `hashlib`.
pub record Hasher : Type 0 where
  pub canonicalize : Json → Option (List ℕ)
  pub sha256 : List ℕ → String
  pub sha256_lem : (bytes : List ℕ) → is_sha256 (sha256 bytes) ≡ true

-- Every exception of the serializer becomes a `CanonicalizationError`.
unfoldable pub canonical_bytes : Hasher → Value → Canonical (List ℕ)
canonical_bytes h v = normalize v >>= λ j. elim (h.canonicalize j) [
  | none ↦ err not_representable
  | some bytes ↦ ok bytes
]

unfoldable pub replay_hash : Hasher → Value → Canonical String
replay_hash h v = canonical_bytes h v >>= λ bytes. ok (h.sha256 bytes)
