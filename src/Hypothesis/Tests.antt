-- ===== src/Hypothesis/Tests.antt =====
-- Hypotheses in the tests, and the theorems about them there.
use jamp.Prelude.Int.{pos}
use jamp.Prelude.{◌≤◌, String, ◌≡◌, refl, none, some, List, [], ◌∷◌, ◌++◌, length, ok, err}
use jamp.Prelude.Text.{is_blank, is_sha256}
use jamp.Prelude.Sort.{sort, insert_sorted}
use jamp.Canonical.{
  Value, str, int, list, tuple, dict, nil, cons, end, field, text, replay_hash, canonical_bytes,
  normalize,
}
use jamp.Hypothesis.Freeze.{Checked, transition_error, freeze, thaw, canonical_formulation, unique}
use jamp.Hypothesis.Record.{
  active, supported, retired, refuted, parse_status, digest, compute_hypothesis_hash,
  compute_transition_hash, check_transition, validate_transition_history, HypothesisRecord,
}
use jamp.Hypothesis.Lifecycle.{transition, post_init, make_hypothesis, transition_hypothesis}
use jamp.Hypothesis.Constructed.{post_init-again}
use jamp.Hypothesis.Made.{make_hypothesis-succeeds}
use jamp.Hypothesis.Moves.{level, post_init-level}
use jamp.Hypothesis.Moved.{Moved, transition_hypothesis-Moved}
use jamp.Hypothesis.Succeeds.{transition_hypothesis-succeeds}
use jamp.Sample.{sample_hasher, write, sample_sha256, binary}

abbrev hash_of : Checked String → String
hash_of (ok s) = s
hash_of (err e) = ""

abbrev claim : String
claim = "00000000000000000000000000000000000000000000000000000000000000ab"

abbrev origin : Value
origin =
    dict (field (text "run") (int (pos 3)) (field (text "files") (list (cons (str "a") nil)) end))

abbrev own : String
own = hash_of (
    compute_hypothesis_hash sample_hasher " heat   rises " "CAUSAL" origin none (claim ∷ claim ∷ [])
      [] active [])

canonical_formulation-words : canonical_formulation " heat   rises " ≡ ok "heat rises"
unfolding canonical_formulation is_blank
canonical_formulation-words = refl

unique-twice : unique (claim ∷ claim ∷ []) ≡ claim ∷ []
unique-twice = refl

abbrev reason : Value
reason = dict (
    field (text "evidence_hash") (str claim)
      (field (text "also") (list (cons (int (pos 1)) nil)) end))

abbrev frozen_reason : Value
frozen_reason = dict (
    field (text "also") (tuple (cons (int (pos 1)) nil))
      (field (text "evidence_hash") (str claim) end))

abbrev moved : List Value
moved =
    transition active supported reason
      (hash_of (compute_transition_hash sample_hasher active supported reason))
    ∷ []

-- A hypothesis with one transition, its fields not in normal form.
abbrev raw : HypothesisRecord
raw = record {
  formulation = " heat   rises ";
  hypothesis_type = "CAUSAL";
  source = origin;
  parent_hypothesis_hash = some claim;
  claim_hashes = claim ∷ claim ∷ [];
  evidence_hashes = [];
  status = supported;
  transition_history = moved;
  hypothesis_hash = hash_of (
      compute_hypothesis_hash sample_hasher " heat   rises " "CAUSAL" origin (some claim)
        (claim ∷ []) [] supported moved);
}

-- The transition with its keys in order.
abbrev sorted_move : Value
sorted_move = dict (
    field (text "from_status") (str "ACTIVE") (
      field (text "reason") frozen_reason (
        field (text "to_status") (str "SUPPORTED") (
          field (text "transition_hash")
            (str (hash_of (compute_transition_hash sample_hasher active supported reason))) end))))

abbrev normal : HypothesisRecord
normal = record raw {
  formulation = "heat rises";
  source =
      dict
        (field (text "files") (tuple (cons (str "a") nil)) (field (text "run") (int (pos 3)) end));
  claim_hashes = claim ∷ [];
  transition_history = sorted_move ∷ [];
}

own_hash :
    compute_hypothesis_hash sample_hasher " heat   rises " "CAUSAL" origin none
      (claim ∷ claim ∷ [])
      []
      active
      []
    ≡ ok own
unfolding compute_hypothesis_hash canonical_formulation freeze thaw digest replay_hash
    canonical_bytes normalize write sample_sha256 is_blank is_sha256 sort insert_sorted
own_hash = refl

raw_record : post_init sample_hasher raw ≡ ok normal
unfolding post_init compute_hypothesis_hash canonical_formulation freeze thaw digest replay_hash
    canonical_bytes normalize write sample_sha256 binary is_blank is_sha256 sort insert_sorted
    validate_transition_history check_transition parse_status compute_transition_hash
raw_record = refl

make_hypothesis-succeeds_example :
    (r : HypothesisRecord) × (make_hypothesis sample_hasher " heat   rises " "CAUSAL" origin none
        none
        (claim ∷ claim ∷ [])
        []
      ≡ ok r)
    × (r.hypothesis_hash ≡ own)
    × (r.status ≡ active)
    × (canonical_formulation " heat   rises " ≡ ok r.formulation)
    × (freeze origin ≡ ok r.source)
make_hypothesis-succeeds_example =
    make_hypothesis-succeeds sample_hasher " heat   rises " "CAUSAL" origin none none
      (claim ∷ claim ∷ []) [] own refl own_hash

post_init-again_example : post_init sample_hasher normal ≡ ok normal
post_init-again_example = post_init-again sample_hasher raw normal raw_record

post_init-level_example :
    (length normal.transition_history ≤ level supported) × (level supported ≤ 2)
post_init-level_example = post_init-level sample_hasher raw normal raw_record

-- A terminal status is left by no transition.
transition_hypothesis-terminal :
    transition_hypothesis sample_hasher (record raw { status = refuted }) "ACTIVE" reason [] []
    ≡ err transition_error
unfolding transition_hypothesis parse_status
transition_hypothesis-terminal = refl

-- The record that a call returns, or the one it was given.
abbrev record_or : HypothesisRecord → Checked HypothesisRecord → HypothesisRecord
record_or r (ok new) = new
record_or r (err e) = r

abbrev retired_one : HypothesisRecord
retired_one =
    record_or normal (transition_hypothesis sample_hasher normal "RETIRED" reason [] (claim ∷ []))

retires :
    transition_hypothesis sample_hasher normal "RETIRED" reason [] (claim ∷ []) ≡ ok retired_one
unfolding transition_hypothesis post_init compute_hypothesis_hash canonical_formulation freeze thaw
    digest replay_hash canonical_bytes normalize write sample_sha256 binary is_blank is_sha256 sort
    insert_sorted validate_transition_history check_transition parse_status compute_transition_hash
retires = refl

transition_hypothesis-Moved_example :
    Moved normal retired_one "RETIRED" [] (claim ∷ [])
    × (post_init sample_hasher retired_one ≡ ok retired_one)
transition_hypothesis-Moved_example =
    transition_hypothesis-Moved sample_hasher normal retired_one "RETIRED" reason [] (claim ∷ [])
      retires

abbrev retire_hash : String
retire_hash = hash_of (compute_transition_hash sample_hasher supported retired reason)

abbrev history_after : List Value
history_after =
    normal.transition_history ++ transition supported retired frozen_reason retire_hash ∷ []

abbrev hash_after : Checked String
hash_after =
    compute_hypothesis_hash sample_hasher normal.formulation normal.hypothesis_type normal.source
      normal.parent_hypothesis_hash (unique (normal.claim_hashes ++ []))
      (unique (normal.evidence_hashes ++ claim ∷ [])) retired history_after

hashed_after : hash_after ≡ ok (hash_of hash_after)
unfolding compute_hypothesis_hash canonical_formulation freeze thaw digest replay_hash
    canonical_bytes normalize write sample_sha256 binary is_blank is_sha256 sort insert_sorted
    compute_transition_hash
hashed_after = refl

retire_hashed : compute_transition_hash sample_hasher supported retired reason ≡ ok retire_hash
unfolding compute_transition_hash freeze thaw digest replay_hash canonical_bytes normalize write
    sample_sha256 binary is_sha256 sort insert_sorted
retire_hashed = refl

reason_frozen : freeze reason ≡ ok frozen_reason
unfolding freeze sort insert_sorted
reason_frozen = refl

names_retired : parse_status "RETIRED" ≡ some retired
unfolding parse_status
names_retired = refl

normal_record : post_init sample_hasher normal ≡ ok normal
normal_record = post_init-again sample_hasher raw normal raw_record

transition_hypothesis-succeeds_example :
    (new : HypothesisRecord) × (transition_hypothesis sample_hasher normal "RETIRED" reason []
        (claim ∷ [])
      ≡ ok new)
    × (new.status ≡ retired)
    × (new.hypothesis_hash ≡ hash_of hash_after)
transition_hypothesis-succeeds_example =
    transition_hypothesis-succeeds sample_hasher normal "RETIRED" retired reason frozen_reason []
      (claim ∷ []) retire_hash (hash_of hash_after) normal_record names_retired reason_frozen
      retire_hashed hashed_after
