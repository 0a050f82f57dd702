-- ===== src/Hypothesis/Record.antt =====
-- `HypothesisRecord`, `make_hypothesis` and `transition_hypothesis` of src/jamp/research/hypothesis.py.
use jamp.Prelude.{
  String, Bool, true, false, Option, none, some, List, [], ◌∷◌, ◌++◌, ok, err, ◌>>=◌, ◌>>◌, require,
  ◌==◌, if◌then◌else◌,
}
use jamp.Prelude.Dict.{contains}
use jamp.Canonical.{
  Value, null, str, list, dict, Items, nil, cons, Fields, end, field, text, Hasher, replay_hash,
}
use jamp.Ledger.{get_field}
use jamp.Hypothesis.Freeze.{
  integrity, transition_error, canonicalization, Checked, freeze, thaw, check_hash,
  check_hash_value, canonical_formulation, unique,
}

pub data HypothesisStatus : Type 0 where
  active supported refuted revised retired : HypothesisStatus

abbrev pub status_name : HypothesisStatus → String
status_name active = "ACTIVE"
status_name supported = "SUPPORTED"
status_name refuted = "REFUTED"
status_name revised = "REVISED"
status_name retired = "RETIRED"

-- `HypothesisStatus(s)`; `none` is its ValueError.
unfoldable pub parse_status : String → Option HypothesisStatus
parse_status s =
    if s == "ACTIVE"
    then some active
    else if s == "SUPPORTED"
    then some supported
    else if s == "REFUTED"
    then some refuted
    else if s == "REVISED"
    then some revised
    else if s == "RETIRED"
    then some retired
    else none

-- `target in _TRANSITIONS[source]`
abbrev pub allowed : HypothesisStatus → HypothesisStatus → Bool
allowed active active = false
allowed active target = true
allowed supported refuted = true
allowed supported revised = true
allowed supported retired = true
allowed supported target = false
allowed source target = false

-- `_TERMINAL`
abbrev pub is_terminal : HypothesisStatus → Bool
is_terminal active = false
is_terminal supported = false
is_terminal status = true

abbrev pub same_status : HypothesisStatus → HypothesisStatus → Bool
same_status a b = status_name a == status_name b

-- `_HYPOTHESIS_TYPES`
abbrev pub hypothesis_types : List String
hypothesis_types = "SCIENTIFIC" ∷ "CAUSAL" ∷ "COMPARATIVE" ∷ "PREDICTIVE" ∷ "EXPLANATORY" ∷ []

abbrev pub check_type : String → Checked (Unit {0})
check_type t = require (contains t hypothesis_types) integrity

abbrev pub check_hashes : List String → Checked (Unit {0})
check_hashes [] = ok tt
check_hashes (s ∷ ss) = check_hash s >> check_hashes ss

abbrev pub check_parent : Option String → Checked (Unit {0})
check_parent none = ok tt
check_parent (some s) = check_hash s

abbrev pub check_reason_hash : String → Fields → Checked (Unit {0})
check_reason_hash k fs = elim (get_field k fs) [ none ↦ ok tt | some v ↦ check_hash_value v ]

abbrev pub check_reason_fields : Fields → Checked (Unit {0})
check_reason_fields fs = check_reason_hash "claim_hash" fs >> check_reason_hash "evidence_hash" fs

-- `_validate_transition_reason`
abbrev pub validate_transition_reason : Value → Checked (Unit {0})
validate_transition_reason v = elim v [
  | dict end ↦ err transition_error
  | dict fs ↦ check_reason_fields fs
  | _ ↦ err transition_error
]

abbrev pub freeze_all : List Value → Checked (List Value)
freeze_all [] = ok []
freeze_all (v ∷ vs) = freeze v >>= λ w. freeze_all vs >>= λ ws. ok (w ∷ ws)

abbrev pub thaw_all : List Value → Items
thaw_all [] = nil
thaw_all (v ∷ vs) = cons (thaw v) (thaw_all vs)

abbrev pub texts : List String → Items
texts [] = nil
texts (s ∷ ss) = cons (str s) (texts ss)

abbrev pub text_or_null : Option String → Value
text_or_null none = null
text_or_null (some s) = str s

-- The dict that `compute_hypothesis_hash` hashes, its references without repetitions.
abbrev pub hypothesis_material :
    String
    → String
    → Value
    → Option String
    → List String
    → List String
    → HypothesisStatus
    → List Value
    → Value
hypothesis_material formulation type source parent claims evidence status history = dict (
    field (text "formulation") (str formulation) (
      field (text "hypothesis_type") (str type) (
        field (text "source") (thaw source) (
          field (text "parent_hypothesis_hash") (text_or_null parent) (
            field (text "claim_hashes") (list (texts claims)) (
              field (text "evidence_hashes") (list (texts evidence)) (
                field (text "status") (str (status_name status))
                  (field (text "transition_history") (list (thaw_all history)) end))))))))

abbrev pub transition_material : Value → Value → Value → Value
transition_material from to reason = dict (
    field (text "from_status") from
      (field (text "to_status") to (field (text "reason") reason end)))

module _ (h : Hasher) where
  -- `sha256(canonical_bytes(v))`, its exception among those of this file.
  unfoldable pub digest : Value → Checked String
  digest v = elim (replay_hash h v) [ ok s ↦ ok s | err e ↦ err (canonicalization e) ]

  unfoldable pub compute_hypothesis_hash :
      String
      → String
      → Value
      → Option String
      → List String
      → List String
      → HypothesisStatus
      → List Value
      → Checked String
  unfolding canonical_formulation freeze thaw digest
  compute_hypothesis_hash formulation type source parent claims evidence status history =
      canonical_formulation formulation >>= λ f.
      check_type type
      >> (freeze source >>= λ s.
          check_parent parent
          >> check_hashes (claims ++ evidence)
          >> (freeze_all history >>= λ hs.
              digest
                (hypothesis_material f type s parent (unique claims) (unique evidence) status hs)))

  unfoldable pub compute_transition_hash :
      HypothesisStatus → HypothesisStatus → Value → Checked String
  unfolding freeze thaw digest
  compute_transition_hash from to reason =
      require (allowed from to) transition_error
      >> validate_transition_reason reason
      >> (freeze reason >>= λ r.
          digest (transition_material (str (status_name from)) (str (status_name to)) (thaw r)))

  -- `HypothesisStatus(transition[k])`, its exceptions those of the history.
  abbrev pub status_at : Value → Checked HypothesisStatus
  status_at v = elim v [
    | str s ↦ elim (parse_status s) [ none ↦ err integrity | some st ↦ ok st ]
    | _ ↦ err integrity
  ]

  -- The transition exceptions of a reason are integrity errors in a history.
  abbrev pub as_integrity : Checked (Unit {0}) → Checked (Unit {0})
  as_integrity m = elim m [ ok u ↦ ok u | err transition_error ↦ err integrity | err e ↦ err e ]

  -- A frozen transition with its four values, from the expected status: the next one.
  abbrev pub check_values :
      HypothesisStatus → Value → Value → Value → Value → Checked HypothesisStatus
  check_values expected from to reason hash = status_at from >>= λ source.
      status_at to >>= λ target.
      require (same_status source expected) integrity
      >> require (allowed source target) integrity
      >> as_integrity (validate_transition_reason reason)
      >> check_hash_value hash
      >> (digest (transition_material (thaw from) (thaw to) (thaw reason)) >>= λ d.
          elim hash [ str s ↦ require (d == s) integrity | _ ↦ err integrity ] >> ok target)

  -- One round of the loop of `_validate_transition_history`. A transition that is no mapping is refused too;
  -- for some of these Python raises a TypeError, an integrity error here.
  unfoldable pub check_transition : HypothesisStatus → Value → Checked HypothesisStatus
  unfolding parse_status thaw digest
  check_transition expected v = elim v [
    | dict fs ↦ elim (get_field "from_status" fs) [
      | none ↦ err integrity
      | some from ↦ elim (get_field "to_status" fs) [
        | none ↦ err integrity
        | some to ↦ elim (get_field "reason" fs) [
          | none ↦ err integrity
          | some reason ↦ elim (get_field "transition_hash" fs) [
            | none ↦ err integrity
            | some hash ↦ check_values expected from to reason hash
          ]
        ]
      ]
    ]
    | _ ↦ err integrity
  ]

  abbrev pub walk : HypothesisStatus → List Value → Checked HypothesisStatus
  walk expected [] = ok expected
  walk expected (v ∷ vs) = check_transition expected v >>= λ next. walk next vs

  unfoldable pub validate_transition_history : List Value → HypothesisStatus → Checked (List Value)
  unfolding freeze check_transition
  validate_transition_history history current = freeze_all history >>= λ frozen.
      walk active frozen >>= λ last. require (same_status last current) integrity >> ok frozen

pub record HypothesisRecord : Type 0 where
  pub formulation : String
  pub hypothesis_type : String
  pub source : Value
  pub parent_hypothesis_hash : Option String
  pub claim_hashes : List String
  pub evidence_hashes : List String
  pub status : HypothesisStatus
  pub transition_history : List Value
  pub hypothesis_hash : String
