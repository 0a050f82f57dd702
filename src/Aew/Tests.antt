-- ===== src/Aew/Tests.antt =====
-- Runs of the worker's contracts, and the theorems at them.
use jamp.Prelude.{ℕ, String, ◌≡◌, refl, true, false, none, some, List, [], ◌∷◌, ltb, ◌+◌, ◌↔◌, inl}
use jamp.Prelude.Int.{pos}
use jamp.Canonical.{end}
use jamp.Aew.State
use jamp.Aew.State.{
  ResearchState, opened, investigating, hypothesis_formed, experiment_defined, running,
  evidence_collected, closed, history, allowed_from, Investigated, verified-Investigated,
  history-closed, closes, EndsIn,
}
use jamp.Aew.Budget.{
  Money, BudgetUsage, ModelBudgetPolicy, authorize, authorize_iff, PermittedEstimates,
}
use jamp.Aew.Evidence
use jamp.Aew.Evidence.{
  EvidenceRecord, EvidenceStatus, append_all, append, snapshot, verified_for, by_claim, Among,
  Genuine, verified_for-Genuine, append-snapshot, append_all-keeps, get, duplicate_evidence_id,
}

abbrev plan : List ResearchState
plan =
    investigating ∷ running ∷ hypothesis_formed ∷ experiment_defined ∷ running ∷ evidence_collected
    ∷ State.verified ∷ []

-- The second request is refused: INVESTIGATING does not lead to RUNNING.
abbrev before : List ResearchState
before =
    evidence_collected ∷ running ∷ experiment_defined ∷ hypothesis_formed ∷ investigating ∷ opened
    ∷ []

history-plan : history plan opened [] ≡ State.verified ∷ before
unfolding history
history-plan = refl

verified-Investigated_example : Investigated before
verified-Investigated_example = verified-Investigated plan before history-plan

-- Money in whole cents.
abbrev cents : Money
cents = record { Amount = ℕ; zero_amount = 0; plus = λ a b. a + b; less = ltb }

abbrev policy : ModelBudgetPolicy cents
policy = record {
  token_budget = pos 1000;
  max_calls = pos 2;
  spend_cap_usd = 50;
  escalation_enabled = false;
}

abbrev unused : BudgetUsage cents
unused = record { tokens = pos 0; calls = pos 0; spend_usd = 0 }

authorize_iff_example :
    ((authorize cents policy unused (some (pos 5)) (some 5) true).allowed ≡ true)
    ↔ PermittedEstimates cents policy unused (some (pos 5)) (some 5) true
authorize_iff_example = authorize_iff cents policy unused (some (pos 5)) (some 5) true

abbrev evidence : String → String → EvidenceStatus → EvidenceRecord
evidence id claim status = record {
  evidence_id = id;
  task_id = "t";
  claim_id = claim;
  source_type = "ci";
  source_id = "s";
  commit_sha = none;
  workflow = none;
  run_id = none;
  job_id = none;
  artifact_id = none;
  raw_hash = none;
  observed_at = none;
  scope = none;
  status = status;
  metadata = end;
}

abbrev stored : List EvidenceRecord
stored =
    evidence "a" "c" EvidenceStatus.observed
    ∷ evidence "b" "c" EvidenceStatus.verified
    ∷ evidence "a" "c" EvidenceStatus.verified
    ∷ []

verified-stored :
    verified_for "c" (append_all stored Evidence.empty)
    ≡ evidence "b" "c" EvidenceStatus.verified ∷ []
unfolding verified_for append_all
verified-stored = refl

verified_for-Genuine_example : Genuine "c" stored (evidence "b" "c" EvidenceStatus.verified)
unfolding verified_for append_all
verified_for-Genuine_example =
    verified_for-Genuine stored "c" (evidence "b" "c" EvidenceStatus.verified) (inl refl)
