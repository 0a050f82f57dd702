-- ===== src/Runtime/Router.antt =====
-- `CapabilityRouter` of src/jamp/runtime/router.py, on a matrix that `_load_matrix` has returned. What it
-- reads of the matrix is a record, whose rows keep their values as they were read.
use jamp.Prelude.{
  ℕ, String, Bool, true, false, not, Option, none, some, List, [], ◌∷◌, all, ◌==◌, if◌then◌else◌,
}
use jamp.Prelude.Dict.{Dict, lookup}
use jamp.Prelude.Sort.{leb_text, sort}
use jamp.Canonical.{Value, str, dict, Fields}
use jamp.Verdict.Stages.{field_is}

-- A latency bound is a float, its 64 bits.
pub record TaskSpec : Type 0 where
  pub task_type : String
  pub required_confidence : String
  pub max_latency : Option ℕ

pub data RouteReason : Type 0 where
  unknown_task_profile unsupported_confidence_contract latency_evidence_unavailable : RouteReason
  insufficient_evidence all_required_capabilities_verified : RouteReason

-- `row.get("model_id")` and `row.get("capabilities", {})`
pub record Row : Type 0 where
  pub model_id : Value
  pub capabilities : Value

-- A matrix that has an anchor, and whose rows are objects: what `_trace` and `_eligible_models` raise on another is left out.
pub record Matrix : Type 0 where
  pub task_profiles : Dict (List String)
  pub matrix : List Row
  pub evidence_anchor : Fields
  pub schema_version : String

pub record Trace : Type 0 where
  pub task_type : String
  pub required_confidence : String
  pub required_capabilities : List String
  pub decision_reason : RouteReason
  pub candidate_models : List String
  pub evidence_anchor : Fields
  pub evidence_schema : String

-- `selected_model` is there exactly in EXECUTE, so that the status is the constructor.
pub data RoutingDecision : Type 0 where
  refuse : Trace → RoutingDecision
  execute : String → Trace → RoutingDecision

-- `_trace`
unfoldable pub trace : TaskSpec → Matrix → List String → List String → RouteReason → Trace
trace t m required candidates reason = record {
  task_type = t.task_type;
  required_confidence = t.required_confidence;
  required_capabilities = required;
  decision_reason = reason;
  candidate_models = candidates;
  evidence_anchor = m.evidence_anchor;
  evidence_schema = m.schema_version;
}

-- The model of a row in which every required capability is verified.
abbrev pub eligible : List String → Value → Value → Option String
eligible required (str id) (dict capabilities) =
    if all (λ c. field_is c "VERIFIED" capabilities) required then some id else none
eligible required _ _ = none

abbrev pub kept : Option String → List String → List String
kept none rest = rest
kept (some id) rest = id ∷ rest

-- The loop of `_eligible_models`.
unfoldable pub collect : List String → List Row → List String
collect required [] = []
collect required (r ∷ rows) =
    kept (eligible required r.model_id r.capabilities) (collect required rows)

unfoldable pub eligible_models : Matrix → List String → List String
unfolding collect
eligible_models m required = sort leb_text (collect required m.matrix)

abbrev pub select_first : TaskSpec → Matrix → List String → List String → RoutingDecision
select_first t m required [] = refuse (trace t m required [] insufficient_evidence)
select_first t m required (c ∷ cs) =
    execute c (trace t m required (c ∷ cs) all_required_capabilities_verified)

abbrev is_given : Option ℕ → Bool
is_given none = false
is_given (some x) = true

abbrev pub route_profile : TaskSpec → Matrix → List String → RoutingDecision
route_profile t m required =
    if not (t.required_confidence == "VERIFIED")
    then refuse (trace t m required [] unsupported_confidence_contract)
    else if is_given t.max_latency
    then refuse (trace t m required [] latency_evidence_unavailable)
    else select_first t m required (eligible_models m required)

unfoldable pub route_task : Matrix → TaskSpec → RoutingDecision
unfolding trace eligible_models
route_task m t = elim (lookup t.task_type m.task_profiles) [
  | none ↦ refuse (trace t m [] [] unknown_task_profile)
  | some required ↦ route_profile t m required
]
