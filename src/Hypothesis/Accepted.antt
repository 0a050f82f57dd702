-- ===== src/Hypothesis/Accepted.antt =====
-- What `compute_hypothesis_hash` and the constructor accept, and that they accept it again.
use jamp.Prelude.{
  String, ◌≡◌, refl, Option, List, [], ◌∷◌, ◌++◌, ok, ◌>>◌, inl, inr, Bool-cases, subst, ok-of-bind,
}
use jamp.Prelude.Dict.{contains}
use jamp.Canonical.{Value, Hasher}
use jamp.Hypothesis.Freeze.{Checked, freeze, check_hash, canonical_formulation, unique, unique_from}
use jamp.Hypothesis.Record.{
  HypothesisStatus, check_type, check_parent, check_hashes, freeze_all, hypothesis_material, digest,
  compute_hypothesis_hash,
}
use jamp.Hypothesis.Frozen.{freeze-again}

pub freeze_all-again : (vs ws : List Value) → freeze_all vs ≡ ok ws → freeze_all ws ≡ ok ws
freeze_all-again [] ws h = subst (λ x. freeze_all x ≡ ok x) (same ws h) refl
  where
    same : (ws : List Value) → ◌≡◌ {A = Checked (List Value)} (ok []) (ok ws) → [] ≡ ws
    same ws h = cc
freeze_all-again (v ∷ vs) ws h =
    let (x, a, h1) = ok-of-bind (freeze v) _ h in
    let (xs, b, h2) = ok-of-bind (freeze_all vs) _ h1 in
    subst (λ y. freeze_all y ≡ ok y) (same x xs h2)
      (rw (freeze-again v x a, freeze_all-again vs xs b) refl)
  where
    same :
        (x : Value) (xs : List Value)
        → ◌≡◌ {A = Checked (List Value)} (ok (x ∷ xs)) (ok ws)
        → x ∷ xs ≡ ws
    same x xs h = cc

pub unit : {m : Checked (Unit {0})} {u : Unit {0}} → m ≡ ok u → m ≡ ok tt
unit h = h

module _ (h : Hasher) where
  -- What a hash of a hypothesis was computed from.
  pub record Hashed (formulation type : String) (source : Value) (parent : Option String)
      (claims evidence : List String) (status : HypothesisStatus) (history : List Value)
      (hash : String) : Type 0 where
    pub canonical : String
    pub frozen : Value
    pub frozen_history : List Value
    pub formulated : canonical_formulation formulation ≡ ok canonical
    pub typed : check_type type ≡ ok tt
    pub source_frozen : freeze source ≡ ok frozen
    pub parent_checked : check_parent parent ≡ ok tt
    pub references_checked : check_hashes (claims ++ evidence) ≡ ok tt
    pub history_frozen : freeze_all history ≡ ok frozen_history
    pub digested :
        digest h (
          hypothesis_material canonical type frozen parent
            (unique claims)
            (unique evidence)
            status
            frozen_history)
        ≡ ok hash

  pub compute_hypothesis_hash-Hashed :
      (formulation type : String) (source : Value) (parent : Option String)
      (claims evidence : List String) (status : HypothesisStatus) (history : List Value)
      (hash : String)
      → compute_hypothesis_hash h formulation type source parent claims evidence status history
        ≡ ok hash
      → Hashed formulation type source parent claims evidence status history hash
  unfolding compute_hypothesis_hash
  compute_hypothesis_hash-Hashed formulation type source parent claims evidence status history hash
        e =
      let (f, formulated, e1) = ok-of-bind (canonical_formulation formulation) _ e in
      let (u, typed, e2) = ok-of-bind (check_type type) _ e1 in
      let (s, frozen, e3) = ok-of-bind (freeze source) _ e2 in
      let (v, checked, e4) =
        ok-of-bind (check_parent parent >> check_hashes (claims ++ evidence)) _ e3 in
      let (w, parent_ok, references) = ok-of-bind (check_parent parent) _ checked in
      let (hs, history_ok, digested) = ok-of-bind (freeze_all history) _ e4 in
      record {
        canonical = f;
        frozen = s;
        frozen_history = hs;
        formulated = formulated;
        typed = unit typed;
        source_frozen = frozen;
        parent_checked = unit parent_ok;
        references_checked = unit references;
        history_frozen = history_ok;
        digested = digested;
      }

  pub Hashed-compute_hypothesis_hash :
      (formulation type : String) (source : Value) (parent : Option String)
      (claims evidence : List String) (status : HypothesisStatus) (history : List Value)
      (hash : String)
      → Hashed formulation type source parent claims evidence status history hash
      → compute_hypothesis_hash h formulation type source parent claims evidence status history
        ≡ ok hash
  unfolding compute_hypothesis_hash
  Hashed-compute_hypothesis_hash formulation type source parent claims evidence status history hash
        k =
      rw (k.formulated, k.typed, k.source_frozen)
        (rw (k.parent_checked, k.references_checked, k.history_frozen) k.digested)

check_hashes-parts :
    (xs ys : List String)
    → check_hashes (xs ++ ys) ≡ ok tt
    → (check_hashes xs ≡ ok tt) × (check_hashes ys ≡ ok tt)
check_hashes-parts [] ys h = (refl, h)
check_hashes-parts (x ∷ xs) ys h =
    let (u, a, b) = ok-of-bind (check_hash x) _ h in
    let (c, e) = check_hashes-parts xs ys b in (rw (unit a) c, e)

check_hashes-append :
    (xs ys : List String)
    → check_hashes xs ≡ ok tt
    → check_hashes ys ≡ ok tt
    → check_hashes (xs ++ ys) ≡ ok tt
check_hashes-append [] ys a b = b
check_hashes-append (x ∷ xs) ys a b =
    let (u, c, e) = ok-of-bind (check_hash x) _ a in rw (unit c) (check_hashes-append xs ys e b)

check_hashes_unique :
    (seen xs : List String) → check_hashes xs ≡ ok tt → check_hashes (unique_from seen xs) ≡ ok tt
check_hashes_unique seen [] h = refl
check_hashes_unique seen (x ∷ xs) h =
    let (u, a, b) = ok-of-bind (check_hash x) _ h in
    elim (Bool-cases (contains x seen)) [
      | inl old ↦ rw old (check_hashes_unique seen xs b)
      | inr new ↦ rw new (rw (unit a) (check_hashes_unique (x ∷ seen) xs b))
    ]

pub check_references-unique :
    (claims evidence : List String)
    → check_hashes (claims ++ evidence) ≡ ok tt
    → check_hashes (unique claims ++ unique evidence) ≡ ok tt
check_references-unique claims evidence h =
    let (a, b) = check_hashes-parts claims evidence h in
    check_hashes-append (unique claims) (unique evidence) (check_hashes_unique [] claims a)
      (check_hashes_unique [] evidence b)
