-- ===== src/Runtime/Tests.antt =====
-- Claims, signed verdicts, an evidence document, and routes on concrete inputs.
use jamp.Prelude.{
  ℕ, suc, String, ◌≡◌, refl, true, false, Option, none, some, List, [], ◌∷◌, Except, ok, err, ◌↔◌,
  length, inl, inr,
}
use jamp.Prelude.Int.{pos}
use jamp.Prelude.Dict.{Dict, contains}
use jamp.Prelude.Sort.{insert_sorted, sort}
use jamp.Prelude.Text.{is_blank, nonempty}
use jamp.Canonical.{
  Value, null, bool, int, str, list, dict, Items, nil, cons, Fields, end, field, text, normalize,
}
use jamp.Sample.{write, sample_sha256, sample_sha256_lem}
use jamp.Verdict.Schema.{obj}
use jamp.Runtime.Claims.{
  Item, claim, object, truthy, inconclusive, aggregate_verdict, PythonError, value_error,
}
use jamp.Runtime.Signed.{Signer, JampVerdict, payload, sign, verify, to_dict}
use jamp.Runtime.Signature.{Agree, verify-sign_other}
use jamp.Runtime.Parse.{from_dict, IsPublic, from_dict-to_dict}
use jamp.Runtime.Gate.{
  expected_capabilities, manifest_sha256, frozen_core_blob, check_all, check_model, check_models,
  make_gate, evaluate_model, get_eligible_models,
}
use jamp.Runtime.Selector.{execute_pool, select}
use jamp.Runtime.Eligible.{Backed, select-Backed}
use jamp.Runtime.Closed.{make_gate-fails_closed}
use jamp.Runtime.Router.{
  TaskSpec, Matrix, RoutingDecision, refuse, execute, Trace, trace, collect, eligible_models,
  route_task,
}
use jamp.Runtime.Route.{Routed, Executes, route_task-Executes}

abbrev shown : Value → String
shown v = "?"

abbrev good : Item
good = claim (record {
  content = "the sum is 4";
  claim_type = "calculation";
  source = none;
  status = "VERIFIED";
  evidence = none;
  reason = none;
  critical = true;
})

abbrev open_claim : Item
open_claim = object (field (text "text") (str "unread") (field (text "critical") (bool true) end))

abbrev both : List Item
both = good ∷ open_claim ∷ []

both-inconclusive : aggregate_verdict shown both ≡ inconclusive
unfolding aggregate_verdict truthy nonempty
both-inconclusive = refl

abbrev or_nothing {ℓ} : {A : Type ℓ} → A → Option A → A
or_nothing d none = d
or_nothing d (some a) = a

abbrev dumps : Value → Except PythonError (List ℕ)
dumps v = elim (normalize v) [ ok j ↦ ok (write j) | err e ↦ err value_error ]

abbrev signer : Signer
signer = record {
  dumps = dumps;
  hmac_sha256 = λ secret. λ bytes. sample_sha256 bytes;
  hmac_sha256_lem = λ secret. λ bytes. sample_sha256_lem bytes;
  to_float = λ n. err value_error;
}

abbrev unsigned : JampVerdict
unsigned = record {
  trace_id = "t";
  status = "VERIFIED";
  provider_model_id = none;
  evidence_hash = "e";
  timestamp = 0;
  signature = none;
  execution_status = "EXECUTE";
  model_verification = "VERIFIED";
  claims = open_claim ∷ [];
  aggregate_status = "PARTIAL";
  critical_unverified = "unread" ∷ [];
}

abbrev result_or : {A E : Type 0} → A → Except E A → A
result_or d (ok a) = a
result_or d (err e) = d

abbrev signed : JampVerdict
signed = result_or unsigned (sign signer "key" unsigned)

is_signed : sign signer "key" unsigned ≡ ok signed
unfolding sign payload normalize write sample_sha256 nonempty
is_signed = refl

unsigned-IsPublic : IsPublic unsigned
unfolding nonempty
unsigned-IsPublic = record {
  trace_id = refl;
  status = refl;
  evidence_hash = refl;
  aggregate_status = refl;
  claims = refl;
}

from_dict-to_dict_example : from_dict signer (to_dict unsigned) ≡ ok unsigned
from_dict-to_dict_example = from_dict-to_dict signer unsigned unsigned-IsPublic

-- The signature of a verdict at another verdict.
abbrev altered : JampVerdict
altered = record signed { status = "CONTRADICTED" }

verify-sign_other_example :
    (bytes : List ℕ) × (dumps (payload unsigned) ≡ ok bytes)
    × ((verify signer "key" altered ≡ ok true) ↔ (
        (other : List ℕ) × (dumps (payload altered) ≡ ok other)
        × (sample_sha256 other ≡ sample_sha256 bytes)))
    × ((payload altered ≡ payload unsigned) ↔ Agree altered unsigned)
    × (verify signer "key" signed ≡ ok true)
verify-sign_other_example = verify-sign_other signer "key" unsigned signed altered is_signed refl

-- The checks of a model, all with one raw status.
abbrev checks_with : String → List String → Fields
checks_with status [] = end
checks_with status (c ∷ cs) =
    field (text c) (dict (field (text "raw_status") (str status) end)) (checks_with status cs)

abbrev model_row : ℕ → String → String → Value
model_row n id status = obj (
    ("model_id", str id)
    ∷ ("ordinal", int (pos n))
    ∷ ("checks", dict (checks_with status expected_capabilities))
    ∷ [])

abbrev rows_from : ℕ → List String → Items
rows_from n [] = nil
rows_from n (id ∷ ids) = cons (model_row n id "INCONCLUSIVE") (rows_from (suc n) ids)

abbrev document : Value
document = obj (
    ("contract_version", str "jamp-17-capability-v1")
    ∷ ("expected_models", int (pos 17))
    ∷ ("executed_models", int (pos 17))
    ∷ ("expected_checks", int (pos 170))
    ∷ ("executed_checks", int (pos 170))
    ∷ ("canonical_manifest_sha256", str manifest_sha256)
    ∷ ("frozen_core_blob", str frozen_core_blob)
    ∷ (
      "models",
      list (
          cons (model_row 1 "m1" "VERIFIED") (
            cons (model_row 2 "m2" "VERIFIED") (
              rows_from 3 (
                "m3" ∷ "m4" ∷ "m5" ∷ "m6" ∷ "m7" ∷ "m8" ∷ "m9" ∷ "m10" ∷ "m11" ∷ "m12" ∷ "m13"
                ∷ "m14" ∷ "m15" ∷ "m16" ∷ "m17" ∷ [])))),
    )
    ∷ [])

abbrev gate : Dict Fields
gate = result_or [] (make_gate document)

is_gate : make_gate document ≡ ok gate
unfolding make_gate check_models check_model check_all is_blank
is_gate = refl

make_gate-fails_closed_example :
    (length gate ≡ 17)
    × ((required : List String) (c : String)
        → contains c expected_capabilities ≡ false
        → contains c required ≡ true
        → get_eligible_models gate required ≡ [])
make_gate-fails_closed_example = make_gate-fails_closed document gate is_gate

abbrev two : List String
two = "C01" ∷ "C07" ∷ []

two-selected :
    select (get_eligible_models gate two) "strict_compliance_safety"
    ≡ ok (execute_pool ("m1" ∷ "m2" ∷ []))
unfolding make_gate check_models check_model check_all is_blank get_eligible_models evaluate_model
    select
two-selected = refl

select-Backed_example : Backed gate two "m2"
select-Backed_example =
    select-Backed gate two "strict_compliance_safety" "m2" (execute_pool ("m1" ∷ "m2" ∷ []))
      two-selected (inr (inl refl))

abbrev matrix : Matrix
matrix = record {
  task_profiles = ("search", "C01" ∷ []) ∷ [];
  matrix =
      record { model_id = str "m2"; capabilities = obj (("C01", str "VERIFIED") ∷ []) }
      ∷ record { model_id = null; capabilities = obj (("C01", str "VERIFIED") ∷ []) }
      ∷ record { model_id = str "m1"; capabilities = obj (("C01", str "VERIFIED") ∷ []) }
      ∷ [];
  evidence_anchor = end;
  schema_version = "jamp-task-scoped-derived-matrix-v2";
}

abbrev search_task : TaskSpec
search_task = record { task_type = "search"; required_confidence = "VERIFIED"; max_latency = none }

abbrev selected : RoutingDecision → Option String
selected (refuse tr) = none
selected (execute c tr) = some c

search-first : selected (route_task matrix search_task) ≡ some "m1"
unfolding route_task eligible_models collect trace sort insert_sorted
search-first = refl

route_task-Executes_example :
    ((c : String) (tr : Trace)
      → route_task matrix search_task ≡ execute c tr
      → Routed matrix search_task c)
    × ((c : String) → Routed matrix search_task c → Executes (route_task matrix search_task))
route_task-Executes_example = route_task-Executes matrix search_task
