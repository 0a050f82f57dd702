-- ===== src/Aew/State.antt =====
-- The research state machine of src/jamp/aew/state.py, with the states of src/jamp/aew/contract.py.
use jamp.Prelude.{
  String, ◌≡◌, refl, Bool, true, List, [], ◌∷◌, Except, ok, err, ◌==◌, if◌then◌else◌, inl, inr, ◌≢◌,
  Bool-cases, any, ap, subst,
}

pub data ResearchState : Type 0 where
  opened investigating hypothesis_formed experiment_defined running : ResearchState
  evidence_collected verified inconclusive failed closed : ResearchState

-- The `StrEnum` values.
abbrev pub state_name : ResearchState → String
state_name opened = "OPEN"
state_name investigating = "INVESTIGATING"
state_name hypothesis_formed = "HYPOTHESIS_FORMED"
state_name experiment_defined = "EXPERIMENT_DEFINED"
state_name running = "RUNNING"
state_name evidence_collected = "EVIDENCE_COLLECTED"
state_name verified = "VERIFIED"
state_name inconclusive = "INCONCLUSIVE"
state_name failed = "FAILED"
state_name closed = "CLOSED"

-- `_ALLOWED[state]`
pub allowed_from : ResearchState → List ResearchState
allowed_from opened = investigating ∷ []
allowed_from investigating = hypothesis_formed ∷ inconclusive ∷ failed ∷ []
allowed_from hypothesis_formed = experiment_defined ∷ inconclusive ∷ []
allowed_from experiment_defined = running ∷ inconclusive ∷ []
allowed_from running = evidence_collected ∷ failed ∷ []
allowed_from evidence_collected = verified ∷ inconclusive ∷ investigating ∷ []
allowed_from verified = closed ∷ []
allowed_from inconclusive = investigating ∷ closed ∷ []
allowed_from failed = investigating ∷ closed ∷ []
allowed_from closed = []

pub record InvalidTransition : Type 0 where
  pub source : ResearchState
  pub target : ResearchState

pub record StateMachine : Type 0 where
  pub state : ResearchState

-- `target in _ALLOWED[state]`
abbrev pub permits : ResearchState → ResearchState → Bool
permits s t = any (λ u. state_name u == state_name t) (allowed_from s)

-- The method mutates the machine; where it raises, the machine is as it was.
unfoldable pub transition :
    ResearchState → StateMachine → Except InvalidTransition ResearchState × StateMachine
unfolding allowed_from
transition target m =
    if permits m.state target
    then (ok target, record { state = target })
    else (err (record { source = m.state; target = target }), m)

abbrev visit :
    Except InvalidTransition ResearchState → ResearchState → List ResearchState → List ResearchState
visit (ok t) s visited = s ∷ visited
visit (err e) s visited = visited

-- The states of a machine under a list of requests, newest first; a request that raises is skipped.
-- The second argument is the machine's state, the third the states before it.
unfoldable pub history :
    List ResearchState → ResearchState → List ResearchState → List ResearchState
unfolding transition
history [] s visited = s ∷ visited
history (t ∷ ts) s visited =
    let (r, m) = transition t (record { state = s }) in history ts m.state (visit r s visited)

-- Every state was permitted by the one before it, back to OPEN.
abbrev pub Trail : ResearchState → List ResearchState → Type 0
Trail s [] = s ≡ opened
Trail s (p ∷ ps) = (permits p s ≡ true) × Trail p ps

abbrev pub TrailOf : List ResearchState → Type 0
TrailOf [] = ⊥
TrailOf (s ∷ ps) = Trail s ps

history-TrailOf :
    (ts : List ResearchState) (s : ResearchState) (visited : List ResearchState)
    → Trail s visited
    → TrailOf (history ts s visited)
unfolding history
history-TrailOf [] s visited h = h
history-TrailOf (t ∷ ts) s visited h = elim (Bool-cases (permits s t)) [
  | inl yes_then ↦ rw yes_then (history-TrailOf ts t (s ∷ visited) (yes_then, h))
  | inr no_then ↦ rw no_then (history-TrailOf ts s visited h)
]

-- The states with one predecessor only.
before_verified : (p : ResearchState) → permits p verified ≡ true → p ≡ evidence_collected
unfolding allowed_from
before_verified evidence_collected h = refl
before_verified _ h = cc

before_evidence : (p : ResearchState) → permits p evidence_collected ≡ true → p ≡ running
unfolding allowed_from
before_evidence running h = refl
before_evidence _ h = cc

before_running : (p : ResearchState) → permits p running ≡ true → p ≡ experiment_defined
unfolding allowed_from
before_running experiment_defined h = refl
before_running _ h = cc

before_experiment :
    (p : ResearchState) → permits p experiment_defined ≡ true → p ≡ hypothesis_formed
unfolding allowed_from
before_experiment hypothesis_formed h = refl
before_experiment _ h = cc

before_hypothesis : (p : ResearchState) → permits p hypothesis_formed ≡ true → p ≡ investigating
unfolding allowed_from
before_hypothesis investigating h = refl
before_hypothesis _ h = cc

-- The order of the work behind a verified state, newest first.
abbrev pub Investigated : List ResearchState → Type 0
Investigated visited =
    (rest : List ResearchState) × (visited
      ≡ evidence_collected ∷ running ∷ experiment_defined ∷ hypothesis_formed ∷ investigating
        ∷ rest)

back :
    (s q : ResearchState) (ps : List ResearchState)
    → s ≢ opened
    → ((p : ResearchState) → permits p s ≡ true → p ≡ q)
    → Trail s ps
    → (rest : List ResearchState) × (ps ≡ q ∷ rest) × Trail q rest
back s q [] ne only h = absurd (ne h)
back s q (p ∷ ps) ne only h =
    let e = only p h.0 in (ps, ap (λ x. x ∷ ps) e, subst (λ x. Trail x ps) e h.1)

Trail-Investigated : (ps : List ResearchState) → Trail verified ps → Investigated ps
Trail-Investigated ps h =
    let (r1, e1, h1) = back verified evidence_collected ps (λ x. cc x) before_verified h in
    let (r2, e2, h2) = back evidence_collected running r1 (λ x. cc x) before_evidence h1 in
    let (r3, e3, h3) = back running experiment_defined r2 (λ x. cc x) before_running h2 in
    let (r4, e4, h4) =
      back experiment_defined hypothesis_formed r3 (λ x. cc x) before_experiment h3 in
    let (r5, e5, h5) = back hypothesis_formed investigating r4 (λ x. cc x) before_hypothesis h4 in
    (r5, cc (e1, e2, e3, e4, e5))

-- However a new machine is driven, it is VERIFIED only directly after it has been, in this order,
-- INVESTIGATING, HYPOTHESIS_FORMED, EXPERIMENT_DEFINED, RUNNING and EVIDENCE_COLLECTED.
pub verified-Investigated :
    (ts visited : List ResearchState)
    → history ts opened [] ≡ verified ∷ visited
    → Investigated visited
verified-Investigated ts visited e =
    Trail-Investigated visited (subst TrailOf e (history-TrailOf ts opened [] refl))

-- A closed machine stays closed, whatever is asked of it.
pub history-closed :
    (ts visited : List ResearchState) → history ts closed visited ≡ closed ∷ visited
unfolding history
history-closed [] visited = refl
history-closed (t ∷ ts) visited = history-closed ts visited

abbrev pub EndsIn : ResearchState → List ResearchState → Type 0
EndsIn t [] = ⊥
EndsIn t (s ∷ ss) = s ≡ t

-- No state is a dead end: from each there is a list of requests that closes the machine.
pub closes : (s : ResearchState) → (ts : List ResearchState) × EndsIn closed (history ts s [])
unfolding history
closes opened = (investigating ∷ failed ∷ closed ∷ [], refl)
closes investigating = (failed ∷ closed ∷ [], refl)
closes hypothesis_formed = (inconclusive ∷ closed ∷ [], refl)
closes experiment_defined = (inconclusive ∷ closed ∷ [], refl)
closes running = (failed ∷ closed ∷ [], refl)
closes evidence_collected = (inconclusive ∷ closed ∷ [], refl)
closes verified = (closed ∷ [], refl)
closes inconclusive = (closed ∷ [], refl)
closes failed = (closed ∷ [], refl)
closes closed = ([], refl)
