-- ===== src/Persistence/Owner.antt =====
-- A read of `AuditPersistence` returns nothing but a record of the organization that asks.
use jamp.Prelude.{
  String, ◌≡◌, refl, Bool, true, false, ◌&&◌, Option, none, some, List, [], ◌∷◌, ok, if◌then◌else◌,
  inl, inr, ◌⊎◌, Bool-cases, subst, ok-of-bind,
}
use jamp.Prelude.Dict.{lookup}
use jamp.Canonical.{jstr}
use jamp.Persistence.{
  Record, Lines, File, Stored, is_text, is_chained, read_all_records, verify_chain, strip, stripped,
  is_match, find_record, read_chained_by_id, require_organization_id,
}
use jamp.Persistence.Chain.{is_text-some}

abbrev pub Listed : Record → List Record → Type 0
Listed r [] = ⊥
Listed r (x ∷ xs) = (x ≡ r) ⊎ Listed r xs

module _ {Line : Type 0} (io : Lines Line) where
  -- A record of the file with the id and the organization, and a part of the chain.
  pub record Owned (file : File Line) (trace_id organization_id : String) (shown : Record)
      : Type 0 where
    pub records : List Record
    pub stored : Record
    pub read : read_all_records io file ≡ ok records
    pub verified : verify_chain io records ≡ ok tt
    pub listed : Listed stored records
    pub named : lookup "trace_id" stored ≡ some (jstr trace_id)
    pub owned : lookup "organization_id" stored ≡ some (jstr organization_id)
    pub in_chain : is_chained stored ≡ true
    pub without_metadata : shown ≡ strip stored

  find_record-Listed :
      (last_wins : Bool) (found : Option Record) (t o : String) (rs : List Record) (r : Record)
      → find_record io last_wins found t o rs ≡ some r
      → (found ≡ some r) ⊎ (Listed r rs × (is_match io t o r ≡ true))
  unfolding find_record
  find_record-Listed last_wins found t o [] r h = inl h
  find_record-Listed last_wins found t o (q ∷ rs) r h = elim (Bool-cases (is_match io t o q)) [
    | inl match ↦
        matched last_wins match (find_record-Listed true (some q) t o rs r) (rw match at h)
    | inr other ↦ elim (find_record-Listed last_wins found t o rs r (rw other at h)) [
      | inl e ↦ inl e
      | inr (l, m) ↦ inr (inr l, m)
    ]
  ]
    where
      same : ◌≡◌ {A = Option Record} (some q) (some r) → q ≡ r
      same h = cc

      matched :
          (b : Bool)
          → is_match io t o q ≡ true
          → (find_record io true (some q) t o rs ≡ some r
              → (some q ≡ some r) ⊎ (Listed r rs × (is_match io t o r ≡ true)))
          → (if b then find_record io b (some q) t o rs else some q) ≡ some r
          → (found ≡ some r) ⊎ (((q ≡ r) ⊎ Listed r rs) × (is_match io t o r ≡ true))
      matched true m ih h = elim (ih h) [
        | inl e ↦ inr (inl (same e), subst (λ x. is_match io t o x ≡ true) (same e) m)
        | inr (l, n) ↦ inr (inr l, n)
      ]
      matched false m ih h = inr (inl (same h), subst (λ x. is_match io t o x ≡ true) (same h) m)

  -- What a read returns is a record of the file that was written for the organization that asks, under the id
  -- it asks for, on a file whose chain verifies; the keys of the chain and the owner are taken away.
  pub read_chained_by_id-Owned :
      (file : File Line) (trace_id organization_id : String) (last_wins : Bool) (shown : Record)
      → read_chained_by_id io file trace_id organization_id last_wins ≡ ok (some shown)
      → Owned file trace_id organization_id shown
  unfolding read_chained_by_id
  read_chained_by_id-Owned file trace_id organization_id last_wins shown h =
      let (u, owner_ok, h1) = ok-of-bind (require_organization_id organization_id) _ h in
      let (rs, read, h2) = ok-of-bind (read_all_records io file) _ h1 in
      let (v, verified, h3) = ok-of-bind (verify_chain io rs) _ h2 in
      let (r, found, is_shown) =
        present (find_record io last_wins none trace_id organization_id rs) h3 in
      by_record rs read verified r is_shown
        (find_record-Listed last_wins none trace_id organization_id rs r found)
    where
      present :
          (o : Option Record)
          → ◌≡◌ {A = Stored (Option Record)} (ok (stripped io o)) (ok (some shown))
          → (r : Record) × (o ≡ some r) × (shown ≡ strip r)
      present none h = cc
      present (some r) h = (r, refl, cc h)

      clash : {r : Record} → none ≡ some r → ⊥
      clash h = cc

      split : (a b c : Bool) → ((a && b) && c) ≡ true → (a ≡ true) × (b ≡ true) × (c ≡ true)
      split true true true h = (refl, refl, refl)
      split true true false h = cc
      split true false c h = cc
      split false b c h = cc

      by_record :
          (rs : List Record)
          → read_all_records io file ≡ ok rs
          → verify_chain io rs ≡ ok tt
          → (r : Record) → shown ≡ strip r
          → (none ≡ some r) ⊎ (Listed r rs × (is_match io trace_id organization_id r ≡ true))
          → Owned file trace_id organization_id shown
      by_record rs read verified r is_shown (inl e) = absurd (clash e)
      by_record rs read verified r is_shown (inr (l, m)) =
          let (a, b, c) =
            split (is_text (lookup "trace_id" r) trace_id)
              (is_text (lookup "organization_id" r) organization_id) (is_chained r) m in
          record {
            records = rs;
            stored = r;
            read = read;
            verified = verified;
            listed = l;
            named = is_text-some (lookup "trace_id" r) trace_id a;
            owned = is_text-some (lookup "organization_id" r) organization_id b;
            in_chain = c;
            without_metadata = is_shown;
          }
