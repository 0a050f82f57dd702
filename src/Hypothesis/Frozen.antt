-- ===== src/Hypothesis/Frozen.antt =====
-- A frozen value is its own.
use jamp.Prelude.{
  ◌≡◌, refl, Bool, true, false, ◌&&◌, List, [], ◌∷◌, All, ok, require, inl, inr, Bool-cases, ap,
  subst, ◌∙◌, ok-of-bind, arith,
}
use jamp.Prelude.Sort.{sort, insert_sorted}
use jamp.Prelude.Sorted.{sort_twice}
use jamp.Canonical.{
  Value, null, bool, int, float, str, list, tuple, dict, unsupported, Items, nil, cons, Fields, end,
  field,
}
use jamp.Hypothesis.Freeze.{
  integrity, Checked, is_free, all_free, Entry, entries, of_entries, leb_entry, freeze,
  freeze_items, freeze_fields,
}
use jamp.Hypothesis.Normal.{
  leb_entry_total, entries-of_entries, FrozenEntry, entries-Frozen, Frozen-of_entries,
}

All-insert_sorted :
    (e : Entry) (es : List Entry)
    → FrozenEntry e
    → All FrozenEntry es
    → All FrozenEntry (insert_sorted leb_entry e es)
unfolding insert_sorted
All-insert_sorted e [] h a = (h, tt)
All-insert_sorted e (x ∷ es) h a = elim (Bool-cases (leb_entry e x)) [
  | inl before ↦ rw before (h, a)
  | inr behind ↦ rw behind (a.0, All-insert_sorted e es h a.1)
]

All-sort : (es : List Entry) → All FrozenEntry es → All FrozenEntry (sort leb_entry es)
unfolding sort
All-sort [] a = tt
All-sort (e ∷ es) a = All-insert_sorted e (sort leb_entry es) a.0 (All-sort es a.1)

free-insert_sorted :
    (e : Entry) (es : List Entry)
    → all_free (of_entries (insert_sorted leb_entry e es))
      ≡ (is_free e.0 && all_free (of_entries es))
unfolding insert_sorted
free-insert_sorted (k, v) [] = refl
free-insert_sorted (k, v) ((j, w) ∷ es) = elim (Bool-cases (leb_entry (k, v) (j, w))) [
  | inl before ↦ rw before refl
  | inr behind ↦ rw behind (
      ap (λ b. is_free j && b) (free-insert_sorted (k, v) es)
      ∙ swap (is_free j) (is_free k) (all_free (of_entries es)))
]
  where
    swap : (a b c : Bool) → (a && (b && c)) ≡ (b && (a && c))
    swap true b c = ground arith
    swap false true c = refl
    swap false false c = refl

free-sort : (es : List Entry) → all_free (of_entries (sort leb_entry es)) ≡ all_free (of_entries es)
unfolding sort
free-sort [] = refl
free-sort ((k, v) ∷ es) =
    free-insert_sorted (k, v) (sort leb_entry es) ∙ ap (λ b. is_free k && b) (free-sort es)

free-entries : (fs : Fields) → all_free (of_entries (entries fs)) ≡ all_free fs
free-entries end = refl
free-entries (field k v fs) = ap (λ b. is_free k && b) (free-entries fs)

pub sorted : Fields → Fields
sorted gs = of_entries (sort leb_entry (entries gs))

-- A dict whose values are frozen and whose keys are in order is frozen.
pub dict-Frozen :
    (gs : Fields)
    → freeze_fields gs ≡ ok gs
    → all_free gs ≡ true
    → freeze (dict (sorted gs)) ≡ ok (dict (sorted gs))
unfolding freeze sorted
dict-Frozen gs h free =
    let es = sort leb_entry (entries gs) in
    let frozen : freeze_fields (of_entries es) ≡ ok (of_entries es) =
      Frozen-of_entries es (All-sort (entries gs) (entries-Frozen gs h)) in
    rw (free-sort (entries gs) ∙ free-entries gs ∙ free, frozen)
      (ap (λ l. ok (dict (of_entries l)))
        (ap (λ l. sort leb_entry l) (entries-of_entries es)
          ∙ sort_twice leb_entry leb_entry_total (entries gs)))

plain : (v w : Value) → ◌≡◌ {A = Checked Value} (ok v) (ok w) → v ≡ w
plain v w h = cc

plain_items : (xs ys : Items) → ◌≡◌ {A = Checked Items} (ok xs) (ok ys) → xs ≡ ys
plain_items xs ys h = cc

plain_fields : (fs gs : Fields) → ◌≡◌ {A = Checked Fields} (ok fs) (ok gs) → fs ≡ gs
plain_fields fs gs h = cc

required : (b : Bool) → require b integrity ≡ ok tt → b ≡ true
required true h = refl
required false h = cc

mutual
  unfolding freeze sorted

  pub freeze-again : (v w : Value) → freeze v ≡ ok w → freeze w ≡ ok w
  freeze-again null w h = subst (λ x. freeze x ≡ ok x) (plain null w h) refl
  freeze-again (bool b) w h = subst (λ x. freeze x ≡ ok x) (plain (bool b) w h) refl
  freeze-again (int n) w h = subst (λ x. freeze x ≡ ok x) (plain (int n) w h) refl
  freeze-again (float bits) w h = subst (λ x. freeze x ≡ ok x) (plain (float bits) w h) refl
  freeze-again (str s) w h = subst (λ x. freeze x ≡ ok x) (plain (str s) w h) refl
  freeze-again unsupported w h = subst (λ x. freeze x ≡ ok x) (plain unsupported w h) refl
  freeze-again (list xs) w h =
      let (ys, a, h1) = ok-of-bind (freeze_items xs) _ h in
      subst (λ x. freeze x ≡ ok x) (plain (tuple ys) w h1) (rw (items-again xs ys a) refl)
  freeze-again (tuple xs) w h =
      let (ys, a, h1) = ok-of-bind (freeze_items xs) _ h in
      subst (λ x. freeze x ≡ ok x) (plain (tuple ys) w h1) (rw (items-again xs ys a) refl)
  freeze-again (dict fs) w h =
      let (u, free, h1) = ok-of-bind (require (all_free fs) integrity) _ h in
      let (gs, a, h2) = ok-of-bind (freeze_fields fs) _ h1 in
      let (again, same_free) = fields-again fs gs a in
      subst (λ x. freeze x ≡ ok x) (plain (dict (sorted gs)) w h2)
        (dict-Frozen gs again (same_free ∙ required (all_free fs) free))

  items-again : (xs ys : Items) → freeze_items xs ≡ ok ys → freeze_items ys ≡ ok ys
  items-again nil ys h = subst (λ x. freeze_items x ≡ ok x) (plain_items nil ys h) refl
  items-again (cons x xs) ys h =
      let (z, a, h1) = ok-of-bind (freeze x) _ h in
      let (zs, b, h2) = ok-of-bind (freeze_items xs) _ h1 in
      subst (λ x. freeze_items x ≡ ok x) (plain_items (cons z zs) ys h2)
        (rw (freeze-again x z a, items-again xs zs b) refl)

  fields-again :
      (fs gs : Fields)
      → freeze_fields fs ≡ ok gs
      → (freeze_fields gs ≡ ok gs) × (all_free gs ≡ all_free fs)
  fields-again end gs h =
      subst (λ x. (freeze_fields x ≡ ok x) × (all_free x ≡ true)) (plain_fields end gs h)
        (refl, refl)
  fields-again (field k x fs) gs h =
      let (z, a, h1) = ok-of-bind (freeze x) _ h in
      let (zs, b, h2) = ok-of-bind (freeze_fields fs) _ h1 in
      let (again, same) = fields-again fs zs b in
      subst (λ x. (freeze_fields x ≡ ok x) × (all_free x ≡ (is_free k && all_free fs)))
        (plain_fields (field k z zs) gs h2)
        (rw (freeze-again x z a, again) refl, ap (λ c. is_free k && c) same)
