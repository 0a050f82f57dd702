-- ===== src/Hypothesis/Reason.antt =====
-- The reason of a transition is as valid when it is frozen.
use jamp.Prelude.{
  String, ◌≡◌, refl, Bool, true, false, Option, none, some, List, [], ◌∷◌, ok, require, ◌==◌,
  if◌then◌else◌, inl, inr, Bool-cases, ap, sym, subst, ◌∙◌, ok-of-bind, eq_iff,
}
use jamp.Prelude.Sort.{sort, insert_sorted}
use jamp.Canonical.{
  Value, null, bool, int, float, str, list, tuple, dict, unsupported, Fields, end, field, text,
  other,
}
use jamp.Ledger.{get_field}
use jamp.Hypothesis.Freeze.{
  integrity, Checked, all_free, Entry, entries, of_entries, leb_key, leb_entry, freeze,
  freeze_fields, check_hash_value,
}
use jamp.Hypothesis.Record.{check_reason_hash, check_reason_fields, validate_transition_reason}
use jamp.Hypothesis.Normal.{leb_entry_total}
use jamp.Hypothesis.Accepted.{unit}

leb_entry_same : (a : String) (v w : Value) → leb_entry (text a, v) (text a, w) ≡ true
leb_entry_same a v w = elim (Bool-cases (leb_entry (text a, v) (text a, w))) [
  | inl yes_it_is ↦ yes_it_is
  | inr no_it_is ↦ leb_entry_total (text a, v) (text a, w) no_it_is
]

-- The first value of a key, behind one more entry.
abbrev put : String → Entry → Option Value → Option Value
put k (text j, v) rest = if j == k then some v else rest
put k (other, v) rest = rest

put_twice :
    (k : String) (x y : Entry) (rest : Option Value)
    → leb_entry x y ≡ false
    → put k y (put k x rest) ≡ put k x (put k y rest)
put_twice k (text a, v) (text b, w) rest h = elim (Bool-cases (a == k)) [
  | inl at_a ↦ elim (Bool-cases (b == k)) [
    | inl at_b ↦
        let same : a ≡ b = (eq_iff a k).0 at_a ∙ sym ((eq_iff b k).0 at_b) in
        absurd (
          clash (
            sym (subst (λ x. leb_entry (text a, v) (text x, w) ≡ true) same (leb_entry_same a v w))
            ∙ h))
    | inr off_b ↦ rw (at_a, off_b) refl
  ]
  | inr off_a ↦ rw off_a refl
]
  where
    clash : true ≡ false → ⊥
    clash h = cc
put_twice k (text a, v) (other, w) rest h = refl
put_twice k (other, v) (text b, w) rest h = refl
put_twice k (other, v) (other, w) rest h = refl

get-cons :
    (k : String) (e : Entry) (es : List Entry)
    → get_field k (of_entries (e ∷ es)) ≡ put k e (get_field k (of_entries es))
get-cons k (text j, v) es = refl
get-cons k (other, v) es = refl

get-insert_sorted :
    (k : String) (e : Entry) (es : List Entry)
    → get_field k (of_entries (insert_sorted leb_entry e es))
      ≡ put k e (get_field k (of_entries es))
unfolding insert_sorted
get-insert_sorted k e [] = get-cons k e []
get-insert_sorted k e (y ∷ es) = elim (Bool-cases (leb_entry e y)) [
  | inl before ↦ rw before (get-cons k e (y ∷ es))
  | inr behind ↦ rw behind (
      get-cons k y (insert_sorted leb_entry e es)
      ∙ ap (λ o. put k y o) (get-insert_sorted k e es)
      ∙ put_twice k e y (get_field k (of_entries es)) behind
      ∙ ap (λ o. put k e o) (sym (get-cons k y es)))
]

get-sort :
    (k : String) (es : List Entry)
    → get_field k (of_entries (sort leb_entry es)) ≡ get_field k (of_entries es)
unfolding sort
get-sort k [] = refl
get-sort k (e ∷ es) =
    get-insert_sorted k e (sort leb_entry es)
    ∙ ap (λ o. put k e o) (get-sort k es)
    ∙ sym (get-cons k e es)

of-entries : (fs : Fields) → of_entries (entries fs) ≡ fs
of-entries end = refl
of-entries (field k v fs) = ap (λ x. field k v x) (of-entries fs)

hash-Frozen :
    (v w : Value) → check_hash_value v ≡ ok tt → freeze v ≡ ok w → check_hash_value w ≡ ok tt
unfolding freeze
hash-Frozen (str s) w c e = subst (λ x. check_hash_value x ≡ ok tt) (same e) c
  where
    same : ◌≡◌ {A = Checked Value} (ok (str s)) (ok w) → str s ≡ w
    same e = cc
hash-Frozen null w c e = cc
hash-Frozen (bool b) w c e = cc
hash-Frozen (int n) w c e = cc
hash-Frozen (float bits) w c e = cc
hash-Frozen (list xs) w c e = cc
hash-Frozen (tuple xs) w c e = cc
hash-Frozen (dict fs) w c e = cc
hash-Frozen unsupported w c e = cc

abbrev check_option : Option Value → Checked (Unit {0})
check_option o = elim o [ none ↦ ok tt | some v ↦ check_hash_value v ]

reason_hash-freeze_fields :
    (k : String) (fs gs : Fields)
    → freeze_fields fs ≡ ok gs
    → check_reason_hash k fs ≡ ok tt
    → check_reason_hash k gs ≡ ok tt
unfolding freeze
reason_hash-freeze_fields k end gs e c = subst (λ x. check_reason_hash k x ≡ ok tt) (same e) refl
  where
    same : ◌≡◌ {A = Checked Fields} (ok end) (ok gs) → end ≡ gs
    same e = cc
reason_hash-freeze_fields k (field (text j) v fs) gs e c =
    let (w, a, e1) = ok-of-bind (freeze v) _ e in
    let (hs, b, e2) = ok-of-bind (freeze_fields fs) _ e1 in
    subst (λ x. check_reason_hash k x ≡ ok tt) (same w hs e2)
      (pick w hs a (reason_hash-freeze_fields k fs hs b) (j == k) c)
  where
    same :
        (w : Value) (hs : Fields)
        → ◌≡◌ {A = Checked Fields} (ok (field (text j) w hs)) (ok gs)
        → field (text j) w hs ≡ gs
    same w hs e = cc

    pick :
        (w : Value) (hs : Fields)
        → freeze v ≡ ok w
        → (check_reason_hash k fs ≡ ok tt → check_reason_hash k hs ≡ ok tt)
        → (b : Bool) → check_option (if b then some v else get_field k fs) ≡ ok tt
        → check_option (if b then some w else get_field k hs) ≡ ok tt
    pick w hs a rest true c = hash-Frozen v w c a
    pick w hs a rest false c = rest c
reason_hash-freeze_fields k (field other v fs) gs e c =
    let (w, a, e1) = ok-of-bind (freeze v) _ e in
    let (hs, b, e2) = ok-of-bind (freeze_fields fs) _ e1 in
    subst (λ x. check_reason_hash k x ≡ ok tt) (same w hs e2)
      (reason_hash-freeze_fields k fs hs b c)
  where
    same :
        (w : Value) (hs : Fields)
        → ◌≡◌ {A = Checked Fields} (ok (field other w hs)) (ok gs)
        → field other w hs ≡ gs
    same w hs e = cc

-- A reason with an entry is valid when its fields are.
valid-insert_sorted :
    (e : Entry) (es : List Entry)
    → check_reason_fields (of_entries (insert_sorted leb_entry e es)) ≡ ok tt
    → validate_transition_reason (dict (of_entries (insert_sorted leb_entry e es))) ≡ ok tt
unfolding insert_sorted
valid-insert_sorted (k, v) [] c = c
valid-insert_sorted (k, v) ((j, w) ∷ es) c = pick (leb_key k j) c
  where
    pick :
        (b : Bool)
        → check_reason_fields (
            of_entries
              (if b then (k, v) ∷ (j, w) ∷ es else (j, w) ∷ insert_sorted leb_entry (k, v) es))
          ≡ ok tt
        → validate_transition_reason (
            dict (
              of_entries
                (if b then (k, v) ∷ (j, w) ∷ es else (j, w) ∷ insert_sorted leb_entry (k, v) es)))
          ≡ ok tt
    pick true c = c
    pick false c = c

reason_hash-sort :
    (k : String) (gs : Fields)
    → check_reason_hash k gs ≡ ok tt
    → check_reason_hash k (of_entries (sort leb_entry (entries gs))) ≡ ok tt
reason_hash-sort k gs c =
    ap (λ o. check_option o) (get-sort k (entries gs) ∙ ap (λ x. get_field k x) (of-entries gs)) ∙ c

reason_fields-sort :
    (gs : Fields)
    → check_reason_fields gs ≡ ok tt
    → check_reason_fields (of_entries (sort leb_entry (entries gs))) ≡ ok tt
reason_fields-sort gs c =
    let (u, a, b) = ok-of-bind (check_reason_hash "claim_hash" gs) _ c in
    rw (reason_hash-sort "claim_hash" gs (unit a)) (reason_hash-sort "evidence_hash" gs b)

pub reason-Frozen :
    (reason frozen : Value)
    → validate_transition_reason reason ≡ ok tt
    → freeze reason ≡ ok frozen
    → validate_transition_reason frozen ≡ ok tt
unfolding freeze sort
reason-Frozen (dict (field k v fs)) frozen c e =
    let (u, a, e1) = ok-of-bind (require (all_free (field k v fs)) integrity) _ e in
    let (gs, b, e2) = ok-of-bind (freeze_fields (field k v fs)) _ e1 in
    let (x, p, q) = ok-of-bind (check_reason_hash "claim_hash" (field k v fs)) _ c in
    let (w, d, e3) = ok-of-bind (freeze v) _ b in
    let (hs, f, e4) = ok-of-bind (freeze_fields fs) _ e3 in
    let claim : check_reason_hash "claim_hash" gs ≡ ok tt =
      reason_hash-freeze_fields "claim_hash" (field k v fs) gs b (unit p) in
    let evidence : check_reason_hash "evidence_hash" gs ≡ ok tt =
      reason_hash-freeze_fields "evidence_hash" (field k v fs) gs b q in
    subst (λ y. validate_transition_reason y ≡ ok tt) (same gs e2)
      (filled w hs gs (fields w hs gs e4) (rw claim evidence))
  where
    same :
        (gs : Fields)
        → ◌≡◌ {A = Checked Value} (ok (dict (of_entries (sort leb_entry (entries gs))))) (ok frozen)
        → dict (of_entries (sort leb_entry (entries gs))) ≡ frozen
    same gs e = cc

    fields :
        (w : Value) (hs gs : Fields)
        → ◌≡◌ {A = Checked Fields} (ok (field k w hs)) (ok gs)
        → field k w hs ≡ gs
    fields w hs gs e = cc

    filled :
        (w : Value) (hs gs : Fields)
        → field k w hs ≡ gs
        → check_reason_fields gs ≡ ok tt
        → validate_transition_reason (dict (of_entries (sort leb_entry (entries gs)))) ≡ ok tt
    filled w hs gs e c =
        subst
          (λ x. validate_transition_reason (dict (of_entries (sort leb_entry (entries x)))) ≡ ok tt)
          e
          (valid-insert_sorted (k, w) (sort leb_entry (entries hs))
            (reason_fields-sort (field k w hs)
              (subst (λ x. check_reason_fields x ≡ ok tt) (sym e) c)))
reason-Frozen (dict end) frozen c e = cc
reason-Frozen null frozen c e = cc
reason-Frozen (bool b) frozen c e = cc
reason-Frozen (int n) frozen c e = cc
reason-Frozen (float bits) frozen c e = cc
reason-Frozen (str s) frozen c e = cc
reason-Frozen (list xs) frozen c e = cc
reason-Frozen (tuple xs) frozen c e = cc
reason-Frozen unsupported frozen c e = cc
