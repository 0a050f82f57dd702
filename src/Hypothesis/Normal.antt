-- ===== src/Hypothesis/Normal.antt =====
-- The normal forms of a hypothesis do not change when they are normalized again.
use Prim.Native.Char.{Char, char, code}
use jamp.Prelude.{
  String, ◌≡◌, refl, Bool, true, false, List, [], ◌∷◌, All, ok, err, ◌>>◌, refuse_if, if◌then◌else◌,
  inl, inr, Bool-cases, ap, subst, ◌∙◌, ok-of-bind,
}
use jamp.Prelude.Text.{is_space, is_blank}
use jamp.Prelude.Dict.{contains}
use jamp.Prelude.TextOrder.{leb_text_total}
use jamp.Canonical.{Value, Fields, end, field, text, other}
use jamp.Hypothesis.Freeze.{
  integrity, Checked, Entry, entries, of_entries, leb_entry, freeze, freeze_fields, collapse,
  canonical_formulation, unique_from,
}

-- Text behind a word that is written again: its head, and its head behind a space.
again-letter :
    (c : Char) (s : String)
    → is_space (code c) ≡ false
    → collapse true false s ≡ s
    → collapse true false (String.◌∷◌ c s) ≡ String.◌∷◌ c s
again-letter c s letter same = rw letter (ap (λ t. String.◌∷◌ c t) same)

again-space :
    (c : Char) (s : String)
    → is_space (code c) ≡ false
    → collapse true false s ≡ s
    → collapse true false (String.◌∷◌ (char b' ' tt) (String.◌∷◌ c s))
      ≡ String.◌∷◌ (char b' ' tt) (String.◌∷◌ c s)
again-space c s letter same = rw letter (ap (λ t. String.◌∷◌ (char b' ' tt) (String.◌∷◌ c t)) same)

collapse-behind :
    (gap : Bool) (s : String) → collapse true false (collapse true gap s) ≡ collapse true gap s
collapse-behind gap String.[] = refl
collapse-behind gap (String.◌∷◌ c s) = elim (Bool-cases (is_space (code c))) [
  | inl space ↦ rw space (collapse-behind true s)
  | inr letter ↦ rw letter (behind letter (collapse-behind false s) gap)
]
  where
    behind :
        is_space (code c) ≡ false
        → collapse true false (collapse true false s) ≡ collapse true false s
        → (g : Bool)
        → collapse true false (
            if g
            then String.◌∷◌ (char b' ' tt) (String.◌∷◌ c (collapse true false s))
            else String.◌∷◌ c (collapse true false s))
          ≡ (if g
              then String.◌∷◌ (char b' ' tt) (String.◌∷◌ c (collapse true false s))
              else String.◌∷◌ c (collapse true false s))
    behind letter same true = again-space c (collapse true false s) letter same
    behind letter same false = again-letter c (collapse true false s) letter same

collapse-again :
    (gap : Bool) (s : String) → collapse false false (collapse false gap s) ≡ collapse false gap s
collapse-again gap String.[] = refl
collapse-again gap (String.◌∷◌ c s) = elim (Bool-cases (is_space (code c))) [
  | inl space ↦ rw space (collapse-again true s)
  | inr letter ↦ rw letter (first letter (collapse-behind false s))
]
  where
    first :
        is_space (code c) ≡ false
        → collapse true false (collapse true false s) ≡ collapse true false s
        → collapse false false (String.◌∷◌ c (collapse true false s))
          ≡ String.◌∷◌ c (collapse true false s)
    first letter same = rw letter (ap (λ t. String.◌∷◌ c t) same)

collapse-full :
    (gap : Bool) (s : String) → is_blank s ≡ false → is_blank (collapse false gap s) ≡ false
unfolding is_blank
collapse-full gap String.[] h = cc
collapse-full gap (String.◌∷◌ c s) h = elim (Bool-cases (is_space (code c))) [
  | inl space ↦ rw space (collapse-full true s (rw space at h))
  | inr letter ↦ rw letter (rw letter refl)
]

-- A canonical formulation is its own.
pub canonical_formulation-again :
    (s t : String) → canonical_formulation s ≡ ok t → canonical_formulation t ≡ ok t
unfolding canonical_formulation
canonical_formulation-again s t h = elim (Bool-cases (is_blank s)) [
  | inl blank ↦ absurd (refused (rw blank at h))
  | inr full ↦
      let is_t : collapse false false s ≡ t = same (rw full at h) in
      subst (λ x. (refuse_if (is_blank x) integrity >> ok (collapse false false x)) ≡ ok x) is_t
        (rw (collapse-full false s full) (ap ok (collapse-again false s)))
]
  where
    refused : ◌≡◌ {A = Checked String} (err integrity) (ok t) → ⊥
    refused h = cc

    same :
        ◌≡◌ {A = Checked String} (ok (collapse false false s)) (ok t) → collapse false false s ≡ t
    same h = cc

pub unique-again :
    (seen xs : List String) → unique_from seen (unique_from seen xs) ≡ unique_from seen xs
unique-again seen [] = refl
unique-again seen (x ∷ xs) = elim (Bool-cases (contains x seen)) [
  | inl old ↦ rw old (unique-again seen xs)
  | inr new ↦ rw new (rw new (ap (λ l. x ∷ l) (unique-again (x ∷ seen) xs)))
]

pub leb_entry_total : (x y : Entry) → leb_entry x y ≡ false → leb_entry y x ≡ true
leb_entry_total (text a, v) (text b, w) h = leb_text_total a b h
leb_entry_total (text a, v) (other, w) h = cc
leb_entry_total (other, v) (text b, w) h = refl
leb_entry_total (other, v) (other, w) h = cc

pub entries-of_entries : (es : List Entry) → entries (of_entries es) ≡ es
entries-of_entries [] = refl
entries-of_entries ((k, v) ∷ es) = ap (λ l. (k, v) ∷ l) (entries-of_entries es)

-- An entry whose value is frozen.
abbrev pub FrozenEntry : Entry → Type 0
FrozenEntry (k, v) = freeze v ≡ ok v

pub entries-Frozen : (fs : Fields) → freeze_fields fs ≡ ok fs → All FrozenEntry (entries fs)
unfolding freeze
entries-Frozen end h = tt
entries-Frozen (field k x fs) h =
    let (y, a, h1) = ok-of-bind (freeze x) _ h in
    let (gs, b, h2) = ok-of-bind (freeze_fields fs) _ h1 in
    let (is_x, is_fs) = parts y gs h2 in (a ∙ ap ok is_x, entries-Frozen fs (b ∙ ap ok is_fs))
  where
    parts :
        (y : Value) (gs : Fields)
        → ◌≡◌ {A = Checked Fields} (ok (field k y gs)) (ok (field k x fs))
        → (y ≡ x) × (gs ≡ fs)
    parts y gs h = (cc h, cc h)

pub Frozen-of_entries :
    (es : List Entry) → All FrozenEntry es → freeze_fields (of_entries es) ≡ ok (of_entries es)
unfolding freeze
Frozen-of_entries [] a = refl
Frozen-of_entries ((k, v) ∷ es) a = rw (a.0, Frozen-of_entries es a.1) refl
