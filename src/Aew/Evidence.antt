-- ===== src/Aew/Evidence.antt =====
-- The evidence ledger of src/jamp/aew/ledger.py, with the records of src/jamp/aew/contract.py.
use jamp.Prelude.{
  String, ◌≡◌, refl, Bool, true, false, Option, none, some, List, [], ◌∷◌, ◌++◌, Except, ok, err,
  ◌==◌, arith, if◌then◌else◌, Bool-cases, inl, inr, eq_iff, ap, ◌⊎◌, ◌∙◌, subst,
}
use jamp.Prelude.Int.{ℤ}
use jamp.Prelude.Dict.{Dict, lookup, has_key, is_some, insert, values, insert-new, lookup-insert}
use jamp.Canonical.{Fields}

pub data EvidenceStatus : Type 0 where
  observed verified inconclusive contradicted : EvidenceStatus

pub record EvidenceRecord : Type 0 where
  pub evidence_id : String
  pub task_id : String
  pub claim_id : String
  pub source_type : String
  pub source_id : String
  pub commit_sha : Option String
  pub workflow : Option String
  pub run_id : Option ℤ
  pub job_id : Option ℤ
  pub artifact_id : Option ℤ
  pub raw_hash : Option String
  pub observed_at : Option String
  pub scope : Option String
  pub status : EvidenceStatus
  pub metadata : Fields

pub data Error : Type 0 where
  duplicate_evidence_id : String → Error
  key_error : String → Error

abbrev pub EvidenceLedger : Type 0
EvidenceLedger = Dict EvidenceRecord

abbrev pub empty : EvidenceLedger
empty = []

-- `append` mutates the ledger, or raises and leaves it.
unfoldable pub append : EvidenceRecord → EvidenceLedger → Except Error (Unit {0}) × EvidenceLedger
append r l =
    if has_key r.evidence_id l
    then (err (duplicate_evidence_id r.evidence_id), l)
    else (ok tt, insert r.evidence_id r l)

unfoldable pub get : String → EvidenceLedger → Except Error EvidenceRecord
get k l = elim (lookup k l) [ none ↦ err (key_error k) | some r ↦ ok r ]

abbrev pub keep : (EvidenceRecord → Bool) → List EvidenceRecord → List EvidenceRecord
keep p [] = []
keep p (r ∷ rs) = let rest = keep p rs in if p r then r ∷ rest else rest

unfoldable pub by_task : String → EvidenceLedger → List EvidenceRecord
by_task t l = keep (λ r. r.task_id == t) (values l)

unfoldable pub by_claim : String → EvidenceLedger → List EvidenceRecord
by_claim c l = keep (λ r. r.claim_id == c) (values l)

abbrev pub is_verified : EvidenceStatus → Bool
is_verified verified = true
is_verified _ = false

-- The method `verified`.
unfoldable pub verified_for : String → EvidenceLedger → List EvidenceRecord
unfolding by_claim
verified_for c l = keep (λ r. is_verified r.status) (by_claim c l)

unfoldable pub snapshot : EvidenceLedger → List EvidenceRecord
snapshot l = values l

-- A client that goes on after an exception.
unfoldable pub append_all : List EvidenceRecord → EvidenceLedger → EvidenceLedger
unfolding append
append_all [] l = l
append_all (r ∷ rs) l = append_all rs (append r l).1

append-keeps :
    (x : EvidenceRecord) (l : EvidenceLedger) (k : String) (r : EvidenceRecord)
    → get k l ≡ ok r
    → get k (append x l).1 ≡ ok r
unfolding append get
append-keeps x l k r h = ground (arith, lookup-insert x.evidence_id k x l, eq_iff x.evidence_id k)

-- What was stored under an id stays, whatever is appended later.
pub append_all-keeps :
    (rs : List EvidenceRecord) (l : EvidenceLedger) (k : String) (r : EvidenceRecord)
    → get k l ≡ ok r
    → get k (append_all rs l) ≡ ok r
unfolding append_all
append_all-keeps [] l k r h = h
append_all-keeps (x ∷ rs) l k r h = append_all-keeps rs (append x l).1 k r (append-keeps x l k r h)

values-append :
    (l : EvidenceLedger) (k : String) (r : EvidenceRecord)
    → values (l ++ (k, r) ∷ []) ≡ values l ++ r ∷ []
values-append [] k r = refl
values-append ((j, x) ∷ l) k r = ap (λ rest. x ∷ rest) (values-append l k r)

is_some-false : (o : Option EvidenceRecord) → is_some o ≡ false → o ≡ none
is_some-false none h = refl
is_some-false (some x) h = cc

snapshot-append :
    (r : EvidenceRecord) (l : EvidenceLedger)
    → has_key r.evidence_id l ≡ false
    → snapshot (append r l).1 ≡ snapshot l ++ r ∷ []
unfolding snapshot append
snapshot-append r l h =
    rw (h, insert-new r.evidence_id r l (is_some-false (lookup r.evidence_id l) h))
      (values-append l r.evidence_id r)

-- The ledger only grows at its end: an append adds the record there, or raises and changes nothing.
pub append-snapshot :
    (r : EvidenceRecord) (l : EvidenceLedger)
    → (((append r l).0 ≡ ok tt) × (snapshot (append r l).1 ≡ snapshot l ++ r ∷ []))
      ⊎ (append r l ≡ (err (duplicate_evidence_id r.evidence_id), l))
append-snapshot r l = elim (Bool-cases (has_key r.evidence_id l)) [
  | inl there ↦ inr (unfold append in rw there)
  | inr new ↦ inl ((unfold append in rw new), snapshot-append r l new)
]

abbrev pub Among : EvidenceRecord → List EvidenceRecord → Type 0
Among r [] = ⊥
Among r (x ∷ xs) = (r ≡ x) ⊎ Among r xs

-- What a client's list and a claim say of a record that counts as verified evidence.
abbrev pub Genuine : String → List EvidenceRecord → EvidenceRecord → Type 0
Genuine c rs r = Among r rs × (r.claim_id ≡ c) × (r.status ≡ verified)

kept_Among :
    (p : EvidenceRecord → Bool) (r x : EvidenceRecord) (xs : List EvidenceRecord)
    → p x ≡ true
    → (Among r (keep p xs) → Among r xs × (p r ≡ true))
    → (r ≡ x) ⊎ Among r (keep p xs)
    → ((r ≡ x) ⊎ Among r xs) × (p r ≡ true)
kept_Among p r x xs kept ih (inl e) = (inl e, ap p e ∙ kept)
kept_Among p r x xs kept ih (inr h) = let (there, good) = ih h in (inr there, good)

keep-Among :
    (p : EvidenceRecord → Bool) (r : EvidenceRecord) (xs : List EvidenceRecord)
    → Among r (keep p xs)
    → Among r xs × (p r ≡ true)
keep-Among p r [] h = absurd h
keep-Among p r (x ∷ xs) h = elim (Bool-cases (p x)) [
  | inl kept ↦ kept_Among p r x xs kept (keep-Among p r xs) (rw kept at h)
  | inr dropped ↦ let (there, good) = keep-Among p r xs (rw dropped at h) in (inr there, good)
]

Among-append :
    (r x : EvidenceRecord) (xs : List EvidenceRecord)
    → Among r (xs ++ x ∷ [])
    → Among r xs ⊎ (r ≡ x)
Among-append r x [] (inl e) = inr e
Among-append r x [] (inr h) = absurd h
Among-append r x (y ∷ xs) (inl e) = inl (inl e)
Among-append r x (y ∷ xs) (inr h) = elim (Among-append r x xs h) [
  | inl there ↦ inl (inr there)
  | inr e ↦ inr e
]

append-source :
    (r x : EvidenceRecord) (l : EvidenceLedger)
    → Among r (snapshot (append x l).1)
    → Among r (snapshot l) ⊎ (r ≡ x)
append-source r x l h = elim (append-snapshot x l) [
  | inl (done, grown) ↦ Among-append r x (snapshot l) (rw grown at h)
  | inr same ↦
      inl (subst (λ (s : Except Error (Unit {0}) × EvidenceLedger). Among r (snapshot s.1)) same h)
]

append_all-source :
    (rs : List EvidenceRecord) (l : EvidenceLedger) (r : EvidenceRecord)
    → Among r (snapshot (append_all rs l))
    → Among r (snapshot l) ⊎ Among r rs
unfolding append_all
append_all-source [] l r h = inl h
append_all-source (x ∷ rs) l r h = elim (append_all-source rs (append x l).1 r h) [
  | inl earlier ↦ elim (append-source r x l earlier) [ inl old ↦ inl old | inr e ↦ inr (inl e) ]
  | inr later ↦ inr (inr later)
]

status-of : (s : EvidenceStatus) → is_verified s ≡ true → s ≡ verified
status-of verified h = refl
status-of _ h = cc

-- The ledger promotes nothing: whatever was appended, a record that it returns as verified for a
-- claim is one that a caller appended, for that claim, with the status VERIFIED.
pub verified_for-Genuine :
    (rs : List EvidenceRecord) (c : String) (r : EvidenceRecord)
    → Among r (verified_for c (append_all rs empty))
    → Genuine c rs r
unfolding verified_for by_claim snapshot
verified_for-Genuine rs c r h =
    let l = values (append_all rs empty) in
    let (in_claim, status) =
      keep-Among (λ x. is_verified x.status) r (keep (λ x. x.claim_id == c) l) h in
    let (stored, claim) = keep-Among (λ x. x.claim_id == c) r l in_claim in
    (
      elim (append_all-source rs empty r stored) [ inl old ↦ absurd old | inr given ↦ given ],
      (eq_iff r.claim_id c).0 claim,
      status-of r.status status,
    )
