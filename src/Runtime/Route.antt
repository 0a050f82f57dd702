-- ===== src/Runtime/Route.antt =====
-- What stands behind a model that the router selects.
use jamp.Prelude.{
  String, ◌≡◌, refl, Bool, true, Option, none, some, List, [], ◌∷◌, all, arith, Bool-cases, inl,
  inr, ◌⊎◌, eq_iff, ◌≢◌, ap, sym, ◌∙◌,
}
use jamp.Prelude.Dict.{lookup}
use jamp.Prelude.Sort.{leb_text, insert_sorted, sort}
use jamp.Canonical.{Value, str, dict, Fields}
use jamp.Verdict.Stages.{field_is}
use jamp.Runtime.Eligible.{Among}
use jamp.Runtime.Router.{
  TaskSpec, Matrix, Row, Trace, RoutingDecision, refuse, execute, unknown_task_profile, trace,
  eligible, kept, collect, eligible_models, select_first, route_profile, route_task,
}

-- A row of the matrix that gives the model every required capability as verified.
abbrev pub Supports : List String → Row → String → Type 0
Supports required r c =
    (r.model_id ≡ str c)
    × ((capabilities : Fields) × (r.capabilities ≡ dict capabilities)
        × (all (λ k. field_is k "VERIFIED" capabilities) required ≡ true))

abbrev pub Supported : List String → List Row → String → Type 0
Supported required [] c = ⊥
Supported required (r ∷ rows) c = Supports required r c ⊎ Supported required rows c

module _ (leb : String → String → Bool) where
  insert_sorted-Among :
      (c x : String) (xs : List String) → Among c (insert_sorted leb x xs) → (c ≡ x) ⊎ Among c xs
  unfolding insert_sorted
  insert_sorted-Among c x [] h = h
  insert_sorted-Among c x (y ∷ ys) h = elim (Bool-cases (leb x y)) [
    | inl before ↦ rw before at h
    | inr behind ↦ elim (rw behind at h) [
      | inl e ↦ inr (inl e)
      | inr later ↦ elim (insert_sorted-Among c x ys later) [
        | inl e ↦ inl e
        | inr there ↦ inr (inr there)
      ]
    ]
  ]

  sort-Among : (c : String) (xs : List String) → Among c (sort leb xs) → Among c xs
  unfolding sort
  sort-Among c [] h = h
  sort-Among c (x ∷ xs) h = elim (insert_sorted-Among c x (sort leb xs) h) [
    | inl e ↦ inl e
    | inr there ↦ inr (sort-Among c xs there)
  ]

  insert_sorted-nonempty : (x : String) (xs : List String) → insert_sorted leb x xs ≢ []
  unfolding insert_sorted
  insert_sorted-nonempty x [] = λ e. cc e
  insert_sorted-nonempty x (y ∷ ys) = elim (Bool-cases (leb x y)) [
    | inl before ↦ rw before (λ e. cc e)
    | inr behind ↦ rw behind (λ e. cc e)
  ]

  sort-nonempty : (xs : List String) → xs ≢ [] → sort leb xs ≢ []
  unfolding sort
  sort-nonempty [] n = n
  sort-nonempty (x ∷ xs) n = insert_sorted-nonempty x (sort leb xs)

eligible-Supports :
    (required : List String) (id capabilities : Value) (c : String)
    → eligible required id capabilities ≡ some c
    → Supports required (record { model_id = id; capabilities = capabilities }) c
eligible-Supports required (str id) (dict fs) c h = ground arith
eligible-Supports required _ _ c h = absurd (ground arith)

collect-Supported :
    (required : List String) (rows : List Row) (c : String)
    → Among c (collect required rows)
    → Supported required rows c
unfolding collect
collect-Supported required [] c h = h
collect-Supported required (r ∷ rows) c h =
    by_row (collect-Supported required rows c) (eligible required r.model_id r.capabilities) refl h
  where
    by_row :
        (Among c (collect required rows) → Supported required rows c)
        → (o : Option String) → eligible required r.model_id r.capabilities ≡ o
        → Among c (kept o (collect required rows))
        → Supported required (r ∷ rows) c
    by_row ih none e h = inr (ih h)
    by_row ih (some id) e (inl same) =
        inl (eligible-Supports required r.model_id r.capabilities c (e ∙ ap some (sym same)))
    by_row ih (some id) e (inr later) = inr (ih later)

Supported-collect :
    (required : List String) (rows : List Row) (c : String)
    → Supported required rows c
    → collect required rows ≢ []
unfolding collect
Supported-collect required [] c h = absurd h
Supported-collect required (r ∷ rows) c (inl (id, (caps, e, a))) = rw (id, e, a) (λ x. cc x)
Supported-collect required (r ∷ rows) c (inr later) =
    by_row (Supported-collect required rows c later) (eligible required r.model_id r.capabilities)
  where
    by_row : collect required rows ≢ [] → (o : Option String) → kept o (collect required rows) ≢ []
    by_row ih none = ih
    by_row ih (some id) = λ x. cc x

-- What a request and the matrix say of a model that is executed.
pub record Routed (m : Matrix) (t : TaskSpec) (c : String) : Type 0 where
  required : List String
  is_profile : lookup t.task_type m.task_profiles ≡ some required
  confidence : t.required_confidence ≡ "VERIFIED"
  no_latency : t.max_latency ≡ none
  supported : Supported required m.matrix c

select_first-head :
    (t : TaskSpec) (m : Matrix) (required pool : List String) (c : String) (tr : Trace)
    → select_first t m required pool ≡ execute c tr
    → Among c pool
select_first-head t m required [] c tr h = cc
select_first-head t m required (x ∷ xs) c tr h = inl (cc h)

profile-Routed :
    (m : Matrix) (t : TaskSpec) (required : List String) (c : String) (tr : Trace)
    → route_profile t m required ≡ execute c tr
    → (t.required_confidence ≡ "VERIFIED")
      × (t.max_latency ≡ none)
      × (select_first t m required (eligible_models m required) ≡ execute c tr)
profile-Routed m t required c tr h = ground (arith, eq_iff t.required_confidence "VERIFIED")

route_task-Routed :
    (m : Matrix) (t : TaskSpec) (c : String) (tr : Trace)
    → route_task m t ≡ execute c tr
    → Routed m t c
unfolding route_task eligible_models
route_task-Routed m t c tr h = by_profile (lookup t.task_type m.task_profiles) refl h
  where
    by_profile :
        (o : Option (List String))
        → lookup t.task_type m.task_profiles ≡ o
        → (elim o as (λ _. RoutingDecision) [
          | none ↦ refuse (trace t m [] [] unknown_task_profile)
          | some required ↦ route_profile t m required
        ])
          ≡ execute c tr
        → Routed m t c
    by_profile none e h = cc
    by_profile (some required) e h =
        let (v, l, first) = profile-Routed m t required c tr h in
        record {
          required = required;
          is_profile = e;
          confidence = v;
          no_latency = l;
          supported = collect-Supported required m.matrix c (
              sort-Among leb_text c (collect required m.matrix)
                (select_first-head t m required (eligible_models m required) c tr first));
        }

abbrev pub Executes : RoutingDecision → Type 0
Executes (refuse tr) = ⊥
Executes (execute c tr) = Unit

Routed-Executes :
    (m : Matrix) (t : TaskSpec) (c : String) → Routed m t c → Executes (route_task m t)
unfolding route_task eligible_models
Routed-Executes m t c r =
    let pool = collect r.required m.matrix in
    rw (r.is_profile, r.confidence, r.no_latency, route_task)
      (by_pool
        (record { task_type = t.task_type; required_confidence = "VERIFIED"; max_latency = none })
        (eligible_models m r.required)
        (sort-nonempty leb_text pool (Supported-collect r.required m.matrix c r.supported)))
  where
    by_pool :
        (t : TaskSpec) (pool : List String)
        → pool ≢ []
        → Executes (select_first t m r.required pool)
    by_pool t [] n = absurd (n refl)
    by_pool t (x ∷ xs) n = tt

-- The router fails closed: it executes a model only if the task's profile is known, the confidence
-- asked for is VERIFIED, no latency bound is given, and a row of the matrix gives that model every
-- required capability as verified; and whenever a model is so supported it executes one.
pub route_task-Executes :
    (m : Matrix) (t : TaskSpec)
    → ((c : String) (tr : Trace) → route_task m t ≡ execute c tr → Routed m t c)
      × ((c : String) → Routed m t c → Executes (route_task m t))
route_task-Executes m t = (route_task-Routed m t, Routed-Executes m t)
