-- ===== src/Persistence/Chain.antt =====
-- The hash chain of a file of `AuditPersistence`, and what `_append_chained` adds to it.
use Prim.Native.String
use text.Mathlib.TextPositions.{len-append}
use jamp.Prelude.{
  ◌<◌, String, ◌≡◌, refl, Bool, true, false, ◌||◌, Option, none, some, List, [], ◌∷◌, ◌++◌, ok,
  ◌>>◌, require, refuse_if, ◌==◌, if◌then◌else◌, arith, ◌⊎◌, inl, inr, Bool-cases, ap, sym, ◌∙◌,
  eq_iff,
}
use jamp.Prelude.Text.{nonempty}
use jamp.Prelude.Dict.{
  lookup, is_some, insert, without, lookup-without_same, lookup-without_other, without-DistinctKeys,
  without-insert, insert-DistinctKeys, DistinctKeys,
}
use jamp.Canonical.{Json, jnull, jbool, jint, jfloat, jarr, jobj, jstr}
use jamp.Persistence.{
  Record, reread_option, Reread, Lines, Stored, chain_broken, hash_mismatch, legacy_after_chain,
  is_text, has_chain, record_hash, verify_from, head_from, chained,
}

pub is_text-some : (o : Option Json) (s : String) → is_text o s ≡ true → o ≡ some (jstr s)
is_text-some (some (jstr t)) s h = ap (λ x. some (jstr x)) ((eq_iff t s).0 h)
is_text-some none s h = cc
is_text-some (some jnull) s h = cc
is_text-some (some (jbool b)) s h = cc
is_text-some (some (jint n)) s h = cc
is_text-some (some (jfloat bits)) s h = cc
is_text-some (some (jarr es)) s h = cc
is_text-some (some (jobj ms)) s h = cc

module _ {Line : Type 0} (io : Lines Line) where
  record_hash-full : (r : Record) → nonempty (record_hash io r) ≡ true
  unfolding record_hash nonempty
  record_hash-full r = full (String.◌++◌ "sha256:" t) (omega (arith, len-append "sha256:" t))
    where
      t : String
      t = io.sha256 (without "record_hash" r)

      full : (s : String) → 0 < String.len s → nonempty s ≡ true
      full String.[] h = absurd (omega (arith, h))
      full (String.◌∷◌ c s) h = refl

  -- The state of the loop of `_verify_chain` behind the records.
  pub final_prev : String → List Record → String
  final_prev prev [] = prev
  final_prev prev (r ∷ rs) = final_prev (if has_chain r then record_hash io r else prev) rs

  pub final_started : Bool → List Record → Bool
  final_started started [] = started
  final_started started (r ∷ rs) = final_started (started || has_chain r) rs

  -- A record that the loop passes.
  pub Passed : String → Bool → Record → List Record → Type 0
  Passed prev started r rs =
      ((has_chain r ≡ true)
        × (is_text (lookup "prev_hash" r) prev ≡ true)
        × (is_text (lookup "record_hash" r) (record_hash io r) ≡ true)
        × (verify_from io (record_hash io r) true rs ≡ ok tt))
      ⊎ ((has_chain r ≡ false) × (started ≡ false) × (verify_from io prev started rs ≡ ok tt))

  verify_from-Passed :
      (prev : String) (started : Bool) (r : Record) (rs : List Record)
      → verify_from io prev started (r ∷ rs) ≡ ok tt
      → Passed prev started r rs
  unfolding verify_from Passed
  verify_from-Passed prev started r rs h =
      cases (has_chain r) (is_text (lookup "prev_hash" r) prev)
        (is_text (lookup "record_hash" r) (record_hash io r)) started
        (verify_from io (record_hash io r) true rs) (verify_from io prev started rs) h
    where
      cases :
          (c a b s : Bool) (x y : Stored (Unit {0}))
          → (if c
              then (require a chain_broken >> require b hash_mismatch >> x)
              else (refuse_if s legacy_after_chain >> y))
            ≡ ok tt
          → ((c ≡ true) × (a ≡ true) × (b ≡ true) × (x ≡ ok tt))
            ⊎ ((c ≡ false) × (s ≡ false) × (y ≡ ok tt))
      cases true true true s x y h = inl (refl, refl, refl, h)
      cases true true false s x y h = cc
      cases true false b s x y h = cc
      cases false a b true x y h = cc
      cases false a b false x y h = inr (refl, refl, h)

  -- Records behind a verified list are verified from where the loop stands.
  pub verify_from-append :
      (prev : String) (started : Bool) (rs ss : List Record)
      → verify_from io prev started rs ≡ ok tt
      → verify_from io prev started (rs ++ ss)
        ≡ verify_from io (final_prev prev rs) (final_started started rs) ss
  unfolding verify_from Passed final_prev final_started
  verify_from-append prev started [] ss h = refl
  verify_from-append prev started (r ∷ rs) ss h = elim (verify_from-Passed prev started r rs h) [
    | inl (c, a, b, x) ↦
        rw (c, a, b)
          (verify_from-append (record_hash io r) true rs ss x ∙ rw (or_true started) refl)
    | inr (c, s, y) ↦ rw (c, s) (verify_from-append prev false rs ss (rw s at y))
  ]
    where
      or_true : (b : Bool) → (b || true) ≡ true
      or_true true = refl
      or_true false = refl

  head_from-hashed :
      (head t : String) (r : Record) (rs : List Record)
      → lookup "record_hash" r ≡ some (jstr t)
      → nonempty t ≡ true
      → head_from io head (r ∷ rs) ≡ head_from io t rs
  unfolding head_from
  head_from-hashed head t r rs e n = rw (e, head_from) (rw n refl)

  head_from-legacy :
      (head : String) (r : Record) (rs : List Record)
      → has_chain r ≡ false
      → head_from io head (r ∷ rs) ≡ head_from io head rs
  unfolding head_from
  head_from-legacy head r rs h =
      rw (missing (lookup "prev_hash" r) (lookup "record_hash" r) h, head_from) refl
    where
      missing : (a b : Option Json) → (is_some a || is_some b) ≡ false → b ≡ none
      missing a none h = refl
      missing none (some b) h = cc
      missing (some a) (some b) h = cc

  pub head_from-final_prev :
      (prev : String) (started : Bool) (rs : List Record)
      → verify_from io prev started rs ≡ ok tt
      → head_from io prev rs ≡ final_prev prev rs
  unfolding head_from Passed final_prev
  head_from-final_prev prev started [] h = refl
  head_from-final_prev prev started (r ∷ rs) h = elim (verify_from-Passed prev started r rs h) [
    | inl (c, a, b, x) ↦
        head_from-hashed prev (record_hash io r) r rs
          (is_text-some (lookup "record_hash" r) (record_hash io r) b) (record_hash-full r)
        ∙ head_from-final_prev (record_hash io r) true rs x
        ∙ rw c refl
    | inr (c, s, y) ↦
        head_from-legacy prev r rs c ∙ head_from-final_prev prev started rs y ∙ rw c refl
  ]

  pub final_prev-last :
      (prev : String) (rs : List Record) (r : Record)
      → has_chain r ≡ true
      → final_prev prev (rs ++ r ∷ []) ≡ record_hash io r
  unfolding final_prev
  final_prev-last prev [] r h = rw h refl
  final_prev-last prev (q ∷ rs) r h =
      final_prev-last (if has_chain q then record_hash io q else prev) rs r h

  pub record_hash-chained :
      (payload r : Record) (prev : String)
      → DistinctKeys payload
      → Reread io.reread (chained io payload prev) r
      → record_hash io r ≡ record_hash io (insert "prev_hash" (jstr prev) payload)
  unfolding record_hash chained
  record_hash-chained payload r prev distinct (dr, same) =
      let d0 : Record = insert "prev_hash" (jstr prev) payload in
      let hash = jstr (record_hash io d0) in
      let body = without-DistinctKeys "record_hash" (insert "record_hash" hash d0) (
        insert-DistinctKeys "record_hash" hash d0
          (insert-DistinctKeys "prev_hash" (jstr prev) payload distinct)) in
      ap (λ x. String.◌++◌ "sha256:" x)
        (io.sha256-Reread (without "record_hash" (insert "record_hash" hash d0))
            (without "record_hash" r) body
            (
              without-DistinctKeys "record_hash" r dr,
              (λ k. kept k (insert "record_hash" hash d0) r (same k)),
            )
          ∙ ap (λ x. io.sha256 x) (without-insert "record_hash" hash d0))
    where
      kept :
          (k : String) (d r : Record)
          → lookup k r ≡ reread_option io.reread (lookup k d)
          → lookup k (without "record_hash" r)
            ≡ reread_option io.reread (lookup k (without "record_hash" d))
      kept k d r h = elim (Bool-cases ("record_hash" == k)) [
        | inl same ↦
            lookup-without_same "record_hash" k r same
            ∙ sym (ap (λ x. reread_option io.reread x) (lookup-without_same "record_hash" k d same))
        | inr differ ↦
            lookup-without_other "record_hash" k r differ
            ∙ h
            ∙ sym (
                ap (λ x. reread_option io.reread x) (lookup-without_other "record_hash" k d differ))
      ]
