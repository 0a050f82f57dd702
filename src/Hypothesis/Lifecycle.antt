-- ===== src/Hypothesis/Lifecycle.antt =====
-- The constructor of `HypothesisRecord`, and the two functions of src/jamp/research/hypothesis.py that call it.
use jamp.Prelude.{
  String, Bool, true, false, Option, none, some, List, [], ◌∷◌, ◌++◌, ok, err, ◌>>=◌, ◌>>◌, require,
  ◌==◌,
}
use jamp.Canonical.{Value, str, dict, end, field, text, Hasher}
use jamp.Hypothesis.Freeze.{
  integrity, transition_error, Checked, freeze, canonical_formulation, unique,
}
use jamp.Hypothesis.Record.{
  HypothesisStatus, active, refuted, revised, status_name, parse_status, allowed, check_type,
  check_parent, check_hashes, validate_transition_reason, validate_transition_history,
  compute_hypothesis_hash, compute_transition_hash, HypothesisRecord,
}

-- The mapping that `transition_hypothesis` adds to the history.
abbrev pub transition : HypothesisStatus → HypothesisStatus → Value → String → Value
transition from to reason hash = dict (
    field (text "from_status") (str (status_name from)) (
      field (text "to_status") (str (status_name to))
        (field (text "reason") reason (field (text "transition_hash") (str hash) end))))

-- `status in {REFUTED, REVISED}`
abbrev pub may_have_child : HypothesisStatus → Bool
may_have_child refuted = true
may_have_child revised = true
may_have_child status = false

module _ (h : Hasher) where
  -- `__post_init__` on the fields that the constructor is given.
  unfoldable pub post_init : HypothesisRecord → Checked HypothesisRecord
  unfolding canonical_formulation freeze validate_transition_history compute_hypothesis_hash
  post_init r = canonical_formulation r.formulation >>= λ f.
      check_type r.hypothesis_type
      >> (freeze r.source >>= λ s.
          let claims = unique r.claim_hashes in
          let evidence = unique r.evidence_hashes in
          check_parent r.parent_hypothesis_hash
          >> check_hashes (claims ++ evidence)
          >> (validate_transition_history h r.transition_history r.status >>= λ history.
              compute_hypothesis_hash h f r.hypothesis_type s r.parent_hypothesis_hash claims
                evidence r.status history
              >>= λ expected.
                  require (expected == r.hypothesis_hash) integrity
                  >> ok (record r {
                    formulation = f;
                    source = s;
                    claim_hashes = claims;
                    evidence_hashes = evidence;
                    transition_history = history;
                  })))

  abbrev pub parent_hash : Option HypothesisRecord → Option String → Option String
  parent_hash none hash = hash
  parent_hash (some p) hash = some p.hypothesis_hash

  abbrev pub check_parents : Option HypothesisRecord → Option String → Checked (Unit {0})
  check_parents none hash = ok tt
  check_parents (some p) none = require (may_have_child p.status) transition_error
  check_parents (some p) (some s) = err transition_error

  unfoldable pub make_hypothesis :
      String
      → String
      → Value
      → Option HypothesisRecord
      → Option String
      → List String
      → List String
      → Checked HypothesisRecord
  unfolding post_init compute_hypothesis_hash
  make_hypothesis formulation type source parent hash claims evidence =
      check_parents parent hash
      >> (compute_hypothesis_hash h formulation type source (parent_hash parent hash) claims
            evidence active []
          >>= λ own. post_init (record {
            formulation = formulation;
            hypothesis_type = type;
            source = source;
            parent_hypothesis_hash = parent_hash parent hash;
            claim_hashes = unique claims;
            evidence_hashes = unique evidence;
            status = active;
            transition_history = [];
            hypothesis_hash = own;
          }))

  abbrev pub move :
      HypothesisRecord
      → HypothesisStatus
      → Value
      → List String
      → List String
      → Checked HypothesisRecord
  move r target reason claims evidence =
      require (allowed r.status target) transition_error
      >> validate_transition_reason reason
      >> (freeze reason >>= λ frozen. compute_transition_hash h r.status target reason >>= λ hash.
          let history = r.transition_history ++ transition r.status target frozen hash ∷ [] in
          let claim_refs = unique (r.claim_hashes ++ claims) in
          let evidence_refs = unique (r.evidence_hashes ++ evidence) in
          check_hashes (claim_refs ++ evidence_refs)
          >> (compute_hypothesis_hash h r.formulation r.hypothesis_type r.source
                r.parent_hypothesis_hash claim_refs evidence_refs target history
              >>= λ own. post_init (record r {
                claim_hashes = claim_refs;
                evidence_hashes = evidence_refs;
                status = target;
                transition_history = history;
                hypothesis_hash = own;
              })))

  unfoldable pub transition_hypothesis :
      HypothesisRecord → String → Value → List String → List String → Checked HypothesisRecord
  unfolding parse_status freeze compute_transition_hash compute_hypothesis_hash post_init
  transition_hypothesis r to_status reason claims evidence = elim (parse_status to_status) [
    | none ↦ err transition_error
    | some target ↦ move r target reason claims evidence
  ]
