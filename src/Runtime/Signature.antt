-- ===== src/Runtime/Signature.antt =====
-- Signing a verdict and verifying it.
use jamp.Prelude.{
  ℕ, String, ◌≡◌, refl, true, some, List, [], ◌∷◌, map, ok, all, ltb, arith, guarded-of-bind, ◌↔◌,
  ap, sym, ◌∙◌, subst, eq_iff, Option, none, err, Except-cases, inl, inr,
}
use jamp.Prelude.Text.{codes, nonempty, is_sha256, is_hex_digit}
use jamp.Canonical.{Value, null, float, str, list, dict, Items, nil}
use jamp.Ledger.{get_field}
use jamp.Verdict.Schema.{items}
use jamp.Runtime.Claims.{Item, claim, object, PythonError}
use jamp.Runtime.Signed.{
  Signer, JampVerdict, or_null, item_value, payload, as_object, sign, verify, is_ascii, claim_dict,
}

hex-ascii : (cs : List ℕ) → all is_hex_digit cs ≡ true → all (λ c. ltb c 128) cs ≡ true
hex-ascii [] h = refl
hex-ascii (c ∷ cs) h = ground (arith, hex-ascii cs)

is_sha256-is_ascii : (s : String) → is_sha256 s ≡ true → is_ascii s ≡ true
unfolding is_sha256
is_sha256-is_ascii s h = hex-ascii (codes s) (ground arith)

same_item : (i : Item) → item_value (as_object i) ≡ item_value i
unfolding claim_dict
same_item (claim c) = refl
same_item (object fs) = refl

same_items : (is : List Item) → map item_value (map as_object is) ≡ map item_value is
same_items [] = refl
same_items (i ∷ is) = rw (same_item i, same_items is)

items-injective : (vs ws : List Value) → items vs ≡ items ws → vs ≡ ws
items-injective [] [] h = refl
items-injective [] (w ∷ ws) h = cc
items-injective (v ∷ vs) [] h = cc
items-injective (v ∷ vs) (w ∷ ws) h =
    let first : v ≡ w = cc h in
    let rest : items vs ≡ items ws = cc h in λ i. first i ∷ items-injective vs ws rest i

texts-injective : (ss ts : List String) → map (λ s. str s) ss ≡ map (λ s. str s) ts → ss ≡ ts
texts-injective [] [] h = refl
texts-injective [] (t ∷ ts) h = cc
texts-injective (s ∷ ss) [] h = cc
texts-injective (s ∷ ss) (t ∷ ts) h =
    let first : s ≡ t = cc h in
    let rest : map (λ s. str s) ss ≡ map (λ s. str s) ts = cc h in
    λ i. first i ∷ texts-injective ss ts rest i

or_null-injective : (a b : Option String) → or_null a ≡ or_null b → a ≡ b
or_null-injective none none h = refl
or_null-injective none (some t) h = cc
or_null-injective (some s) none h = cc
or_null-injective (some s) (some t) h = ap some (cc h)

-- Two verdicts agree on all that is signed.
pub record Agree (x v : JampVerdict) : Type 0 where
  pub trace_ids : x.trace_id ≡ v.trace_id
  pub statuses : x.status ≡ v.status
  pub models : x.provider_model_id ≡ v.provider_model_id
  pub evidence_hashes : x.evidence_hash ≡ v.evidence_hash
  pub timestamps : x.timestamp ≡ v.timestamp
  pub execution_statuses : x.execution_status ≡ v.execution_status
  pub verifications : x.model_verification ≡ v.model_verification
  pub claim_dicts : map item_value x.claims ≡ map item_value v.claims
  pub aggregates : x.aggregate_status ≡ v.aggregate_status
  pub unverified : x.critical_unverified ≡ v.critical_unverified

abbrev value_at : String → Value → Value
value_at k (dict fs) = elim (get_field k fs) [ none ↦ null | some v ↦ v ]
value_at k v = null

abbrev text_of : Value → String
text_of (str s) = s
text_of v = ""

abbrev bits_of : Value → ℕ
bits_of (float n) = n
bits_of v = 0

abbrev items_of : Value → Items
items_of (list xs) = xs
items_of v = nil

payload-Agree : (x v : JampVerdict) → (payload x ≡ payload v) ↔ Agree x v
unfolding payload
payload-Agree x v = (
  (λ h. record {
    trace_ids = ap (λ p. text_of (value_at "trace_id" p)) h;
    statuses = ap (λ p. text_of (value_at "status" p)) h;
    models =
        or_null-injective x.provider_model_id v.provider_model_id
          (ap (λ p. value_at "provider_model_id" p) h);
    evidence_hashes = ap (λ p. text_of (value_at "evidence_hash" p)) h;
    timestamps = ap (λ p. bits_of (value_at "timestamp" p)) h;
    execution_statuses = ap (λ p. text_of (value_at "execution_status" p)) h;
    verifications = ap (λ p. text_of (value_at "model_verification" p)) h;
    claim_dicts =
        items-injective (map item_value x.claims) (map item_value v.claims)
          (ap (λ p. items_of (value_at "claims" p)) h);
    aggregates = ap (λ p. text_of (value_at "aggregate_status" p)) h;
    unverified = texts-injective x.critical_unverified v.critical_unverified (
        items-injective (map (λ s. str s) x.critical_unverified)
          (map (λ s. str s) v.critical_unverified)
          (ap (λ p. items_of (value_at "critical_unverified" p)) h));
  }),
  (λ a.
      rw (a.trace_ids, a.statuses, a.models, a.evidence_hashes, a.timestamps, a.execution_statuses)
        (rw (a.verifications, a.claim_dicts, a.aggregates, a.unverified) refl)),
)

module _ (g : Signer) (secret : String) where
  sign-payload :
      (v w : JampVerdict)
      → sign g secret v ≡ ok w
      → (nonempty secret ≡ true)
        × ((bytes : List ℕ) × (g.dumps (payload v) ≡ ok bytes)
            × (w.signature ≡ some (g.hmac_sha256 secret bytes))
            × (payload w ≡ payload v))
  unfolding sign payload
  sign-payload v w h =
      let (s, b) = guarded-of-bind (nonempty secret) _ (g.dumps (payload v)) _ h in
      let (bytes, e, made) = b in
      let signed : JampVerdict = record v {
        signature = some (g.hmac_sha256 secret bytes);
        claims = map as_object v.claims;
      } in
      let is_w : signed ≡ w = cc made in
      subst
        (λ (x : JampVerdict).
          (nonempty secret ≡ true)
          × ((bs : List ℕ) × (g.dumps (payload v) ≡ ok bs)
              × (x.signature ≡ some (g.hmac_sha256 secret bs))
              × (payload x ≡ payload v)))
        is_w (s, (bytes, e, refl, rw (same_items v.claims)))

  -- A verdict with a signature is verified under a secret that is not empty exactly if the signature
  -- is the digest of its payload, provided that the payload is JSON and the signature is ASCII.
  pub verify-payload :
      (v : JampVerdict) (s : String) (bytes : List ℕ)
      → nonempty secret ≡ true
      → v.signature ≡ some s
      → is_ascii s ≡ true
      → g.dumps (payload v) ≡ ok bytes
      → (verify g secret v ≡ ok true) ↔ (s ≡ g.hmac_sha256 secret bytes)
  unfolding verify sign payload
  verify-payload v s bytes n sig a e =
      let ascii =
        is_sha256-is_ascii (g.hmac_sha256 secret bytes) (g.hmac_sha256_lem secret bytes) in
      rw (sig, n, e, a, ascii)
        (
          (λ x. (eq_iff s (g.hmac_sha256 secret bytes)).0 (cc x)),
          λ x. ap ok ((eq_iff s (g.hmac_sha256 secret bytes)).1 x),
        )

  -- A verdict that `sign` returns is verified under the same secret.
  pub verify-sign : (v w : JampVerdict) → sign g secret v ≡ ok w → verify g secret w ≡ ok true
  verify-sign v w h =
      let (s, rest) = sign-payload v w h in
      let (bytes, e, sig, same) = rest in
      let ascii =
        is_sha256-is_ascii (g.hmac_sha256 secret bytes) (g.hmac_sha256_lem secret bytes) in
      (verify-payload w (g.hmac_sha256 secret bytes) bytes s sig ascii (ap g.dumps same ∙ e)).1 refl

  -- A payload that cannot be written is not verified: `verify` raises.
  verify-unwritten :
      (x : JampVerdict) (e : PythonError) (sig : String)
      → nonempty secret ≡ true
      → g.dumps (payload x) ≡ err e
      → x.signature ≡ some sig
      → verify g secret x ≡ ok true
      → ⊥
  unfolding verify sign payload
  verify-unwritten x e sig n f is_sig t = cc (rw (is_sig, n, f) at t)

  -- Whether `verify` accepts the signature that `sign` made of one verdict for another, under the same secret: exactly
  -- if the payload of the other can be written and its digest is that of the bytes that were signed. So a
  -- signed verdict is verified as it is, and as the payload holds all ten fields but the signature, two
  -- verdicts have one payload exactly if these fields agree, a claim counting as its dict.
  pub verify-sign_other :
      (v w x : JampVerdict)
      → sign g secret v ≡ ok w
      → x.signature ≡ w.signature
      → (bytes : List ℕ) × (g.dumps (payload v) ≡ ok bytes)
        × ((verify g secret x ≡ ok true) ↔ (
            (other : List ℕ) × (g.dumps (payload x) ≡ ok other)
            × (g.hmac_sha256 secret other ≡ g.hmac_sha256 secret bytes)))
        × ((payload x ≡ payload v) ↔ Agree x v)
        × (verify g secret w ≡ ok true)
  verify-sign_other v w x h same =
      let (s, rest) = sign-payload v w h in
      let (bytes, e, sig, is_payload) = rest in
      let mac = g.hmac_sha256 secret bytes in
      let ascii = is_sha256-is_ascii mac (g.hmac_sha256_lem secret bytes) in
      (
        bytes,
        e,
        (
          (λ t. elim (Except-cases (g.dumps (payload x))) [
            | inl (other, f) ↦
                (other, f, sym ((verify-payload x mac other s (same ∙ sig) ascii f).0 t))
            | inr (failure, f) ↦ absurd (verify-unwritten x failure mac s f (same ∙ sig) t)
          ]),
          (λ (other, f, q). (verify-payload x mac other s (same ∙ sig) ascii f).1 (sym q)),
        ),
        payload-Agree x v,
        verify-sign v w h,
      )
