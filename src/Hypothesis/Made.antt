-- ===== src/Hypothesis/Made.antt =====
-- `make_hypothesis` returns the record of its arguments in normal form.
use jamp.Prelude.{String, ◌≡◌, refl, Option, List, [], ok, ◌>>=◌, ◌>>◌, ap, subst, ◌∙◌}
use jamp.Canonical.{Value, Hasher}
use jamp.Hypothesis.Freeze.{Checked, freeze, canonical_formulation, unique}
use jamp.Hypothesis.Record.{
  active, freeze_all, digest, hypothesis_material, compute_hypothesis_hash,
  validate_transition_history, HypothesisRecord,
}
use jamp.Hypothesis.Lifecycle.{post_init, make_hypothesis, check_parents, parent_hash}
use jamp.Hypothesis.Normal.{canonical_formulation-again, unique-again}
use jamp.Hypothesis.Frozen.{freeze-again}
use jamp.Hypothesis.Accepted.{
  Hashed, compute_hypothesis_hash-Hashed, Hashed-compute_hypothesis_hash, check_references-unique,
}
use jamp.Hypothesis.Constructed.{Built-post_init}

module _ (h : Hasher) where
  -- A hash of a hypothesis with no transitions is the hash of its normal form.
  Hashed-normal :
      (f type : String) (source : Value) (parent : Option String) (claims evidence : List String)
      (own : String)
      → (k : Hashed h f type source parent claims evidence active [] own)
      → Hashed h k.canonical type k.frozen parent
          (unique (unique claims))
          (unique (unique evidence))
          active
          []
          own
  Hashed-normal f type source parent claims evidence own k = record {
    canonical = k.canonical;
    frozen = k.frozen;
    frozen_history = [];
    formulated = canonical_formulation-again f k.canonical k.formulated;
    typed = k.typed;
    source_frozen = freeze-again source k.frozen k.source_frozen;
    parent_checked = k.parent_checked;
    references_checked =
        check_references-unique (unique claims) (unique evidence)
          (check_references-unique claims evidence k.references_checked);
    history_frozen = refl;
    digested =
        ap (λ x. digest h (material x (unique (unique (unique evidence))) [])) (again claims)
        ∙ ap (λ x. digest h (material (unique claims) x [])) (again evidence)
        ∙ subst (λ hs. digest h (material (unique claims) (unique evidence) hs) ≡ ok own)
            (nothing k.history_frozen) k.digested;
  }
    where
      material : List String → List String → List Value → Value
      material c e hs = hypothesis_material k.canonical type k.frozen parent c e active hs

      again : (xs : List String) → unique (unique (unique xs)) ≡ unique xs
      again xs = ap (λ l. unique l) (unique-again [] xs) ∙ unique-again [] xs

      nothing : freeze_all [] ≡ ok k.frozen_history → k.frozen_history ≡ []
      nothing e = cc

  -- `make_hypothesis` returns a record whenever its parent is admissible and the hash of its arguments can be
  -- computed: the constructor accepts that hash for the fields in normal form, and the status is ACTIVE.
  pub make_hypothesis-succeeds :
      (formulation type : String) (source : Value) (parent : Option HypothesisRecord)
      (hash : Option String) (claims evidence : List String) (own : String)
      → check_parents h parent hash ≡ ok tt
      → compute_hypothesis_hash h formulation type source
          (parent_hash h parent hash)
          claims
          evidence
          active
          []
        ≡ ok own
      → (r : HypothesisRecord) × (make_hypothesis h formulation type source parent hash claims
            evidence
          ≡ ok r)
        × (r.hypothesis_hash ≡ own)
        × (r.status ≡ active)
        × (canonical_formulation formulation ≡ ok r.formulation)
        × (freeze source ≡ ok r.source)
  unfolding make_hypothesis validate_transition_history
  make_hypothesis-succeeds formulation type source parent hash claims evidence own p e =
      let k =
        compute_hypothesis_hash-Hashed h formulation type source (parent_hash h parent hash) claims
          evidence active [] own e in
      let normal =
        Hashed-normal formulation type source (parent_hash h parent hash) claims evidence own k in
      let raw : String → HypothesisRecord = λ x. record {
        formulation = formulation;
        hypothesis_type = type;
        source = source;
        parent_hypothesis_hash = parent_hash h parent hash;
        claim_hashes = unique claims;
        evidence_hashes = unique evidence;
        status = active;
        transition_history = [];
        hypothesis_hash = x;
      } in
      let n : HypothesisRecord = record (raw own) {
        formulation = k.canonical;
        source = k.frozen;
        claim_hashes = unique (unique claims);
        evidence_hashes = unique (unique evidence);
      } in
      let built = Built-post_init h (raw own) n (record {
        formulated = k.formulated;
        typed = k.typed;
        frozen = k.source_frozen;
        parent_checked = k.parent_checked;
        references_checked = normal.references_checked;
        history_valid = no_history;
        hashed =
            Hashed-compute_hypothesis_hash h k.canonical type k.frozen (parent_hash h parent hash)
              (unique (unique claims)) (unique (unique evidence)) active [] own normal;
        shape = refl;
      }) in
      (
        n,
        made raw n
            (compute_hypothesis_hash h formulation type source (parent_hash h parent hash) claims
              evidence active [])
            e built,
        refl,
        refl,
        k.formulated,
        k.source_frozen,
      )
    where
      no_history : validate_transition_history h [] active ≡ ok []
      no_history = refl

      made :
          (raw : String → HypothesisRecord) (n : HypothesisRecord) (m : Checked String)
          → m ≡ ok own
          → post_init h (raw own) ≡ ok n
          → (check_parents h parent hash >> (m >>= λ x. post_init h (raw x))) ≡ ok n
      made raw n m hm built = rw (p, hm) built
