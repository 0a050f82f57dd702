-- ===== src/Canonical/Normal.antt =====
-- What normalizes and to what: the values that the class comment calls canonical, exactly.
use jamp.Prelude.{
  ℕ, List, some, String, ◌≡◌, refl, Bool, true, false, ◌&&◌, Except, ok, err, arith, Except-cases,
  Option-cases, ◌↔◌, inl, inr, sym, ap, ◌∙◌,
}
use jamp.Canonical.{
  Value, null, bool, int, float, str, list, tuple, dict, unsupported, Items, nil, cons, Fields, end,
  field, text, other, Json, jnull, jbool, jint, jfloat, jstr, jarr, jobj, Elements, jnil, jcons,
  Members, jend, member, CanonicalizationError, is_finite, normalize, normalize_items,
  normalize_fields, Hasher, canonical_bytes, replay_hash,
}

-- Every float is finite, every key is a text, and nothing is of an unsupported class.
unfoldable mutual
  pub is_canonical : Value → Bool
  is_canonical (float bits) = is_finite bits
  is_canonical (list xs) = are_canonical xs
  is_canonical (tuple xs) = are_canonical xs
  is_canonical (dict fs) = holds_canonical fs
  is_canonical unsupported = false
  is_canonical null = true
  is_canonical (bool b) = true
  is_canonical (int n) = true
  is_canonical (str s) = true

  pub are_canonical : Items → Bool
  are_canonical nil = true
  are_canonical (cons x xs) = is_canonical x && are_canonical xs

  pub holds_canonical : Fields → Bool
  holds_canonical end = true
  holds_canonical (field (text k) x fs) = is_canonical x && holds_canonical fs
  holds_canonical (field other x fs) = false

abbrev succeeds : {A : Type 0} → Except CanonicalizationError A → Bool
succeeds (ok a) = true
succeeds (err e) = false

mutual
  unfolding normalize is_canonical

  normalize-succeeds : (v : Value) → succeeds (normalize v) ≡ is_canonical v
  normalize-succeeds null = refl
  normalize-succeeds (bool b) = refl
  normalize-succeeds (int n) = refl
  normalize-succeeds (float bits) = ground arith
  normalize-succeeds (str s) = refl
  normalize-succeeds (list xs) = ground (arith, items-succeeds xs)
  normalize-succeeds (tuple xs) = ground (arith, items-succeeds xs)
  normalize-succeeds (dict fs) = ground (arith, fields-succeeds fs)
  normalize-succeeds unsupported = refl

  items-succeeds : (xs : Items) → succeeds (normalize_items xs) ≡ are_canonical xs
  items-succeeds nil = refl
  items-succeeds (cons x xs) = ground (arith, normalize-succeeds x, items-succeeds xs)

  fields-succeeds : (fs : Fields) → succeeds (normalize_fields fs) ≡ holds_canonical fs
  fields-succeeds end = refl
  fields-succeeds (field (text k) x fs) = ground (arith, normalize-succeeds x, fields-succeeds fs)
  fields-succeeds (field other x fs) = refl

-- A value as JSON: tuples are arrays. Where a value is not canonical the result means nothing.
unfoldable mutual
  pub json_of : Value → Json
  json_of null = jnull
  json_of (bool b) = jbool b
  json_of (int n) = jint n
  json_of (float bits) = jfloat bits
  json_of (str s) = jstr s
  json_of (list xs) = jarr (elements_of xs)
  json_of (tuple xs) = jarr (elements_of xs)
  json_of (dict fs) = jobj (members_of fs)
  json_of unsupported = jnull

  pub elements_of : Items → Elements
  elements_of nil = jnil
  elements_of (cons x xs) = jcons (json_of x) (elements_of xs)

  pub members_of : Fields → Members
  members_of end = jend
  members_of (field (text k) x fs) = member k (json_of x) (members_of fs)
  members_of (field other x fs) = members_of fs

both : (a b : Bool) → (a && b) ≡ true → (a ≡ true) × (b ≡ true)
both a b h = ground arith

mutual
  unfolding normalize is_canonical json_of

  normalize-json_of : (v : Value) → is_canonical v ≡ true → normalize v ≡ ok (json_of v)
  normalize-json_of null c = refl
  normalize-json_of (bool b) c = refl
  normalize-json_of (int n) c = refl
  normalize-json_of (float bits) c = rw c refl
  normalize-json_of (str s) c = refl
  normalize-json_of (list xs) c = rw (items-elements_of xs c) refl
  normalize-json_of (tuple xs) c = rw (items-elements_of xs c) refl
  normalize-json_of (dict fs) c = rw (fields-members_of fs c) refl
  normalize-json_of unsupported c = cc

  items-elements_of :
      (xs : Items) → are_canonical xs ≡ true → normalize_items xs ≡ ok (elements_of xs)
  items-elements_of nil c = refl
  items-elements_of (cons x xs) c =
      let (a, b) = both (is_canonical x) (are_canonical xs) c in
      rw (normalize-json_of x a, items-elements_of xs b) refl

  fields-members_of :
      (fs : Fields) → holds_canonical fs ≡ true → normalize_fields fs ≡ ok (members_of fs)
  fields-members_of end c = refl
  fields-members_of (field (text k) x fs) c =
      let (a, b) = both (is_canonical x) (holds_canonical fs) c in
      rw (normalize-json_of x a, fields-members_of fs b) refl
  fields-members_of (field other x fs) c = cc

-- The digest is `d` exactly if the value holds no float that is not finite, no key that is not a text and no object of
-- another class, the serializer accepts the value as JSON, and `d` is the SHA-256 of the bytes it gives.
-- In every other case `replay_hash` raises a `CanonicalizationError`.
pub replay_hash_iff :
    (h : Hasher) (v : Value) (d : String)
    → (replay_hash h v ≡ ok d) ↔ (
        (is_canonical v ≡ true)
        × ((bytes : List ℕ) × (h.canonicalize (json_of v) ≡ some bytes) × (d ≡ h.sha256 bytes)))
unfolding replay_hash canonical_bytes
replay_hash_iff h v d = (
  (λ r. elim (Except-cases (normalize v)) [
    | inl (j, e) ↦
        let c : is_canonical v ≡ true = sym (normalize-succeeds v) ∙ ap succeeds e in
        elim (Option-cases (h.canonicalize (json_of v))) [
          | inl no_bytes ↦ absurd (cc (rw (normalize-json_of v c, no_bytes) at r))
          | inr (bytes, b) ↦ (c, (bytes, b, same bytes (rw (normalize-json_of v c, b) at r)))
        ]
    | inr (x, e) ↦ absurd (cc (rw e at r))
  ]),
  (λ (c, (bytes, b, is_d)). rw (normalize-json_of v c, b) (ap ok (sym is_d))),
)
  where
    same :
        (bytes : List ℕ)
        → ◌≡◌ {A = Except CanonicalizationError String} (ok (h.sha256 bytes)) (ok d)
        → d ≡ h.sha256 bytes
    same bytes e = cc e
