-- ===== src/Registry/Commits.antt =====
-- The records of a registry after any calls.
use jamp.Prelude.{
  ℕ, ◌≡◌, refl, true, false, List, [], ◌∷◌, ◌++◌, nat_beq, Bool-cases, inl, inr, ◌⊎◌, subst, sym,
}
use jamp.Registry.{
  RegistryRecord, Registry, has_id, add, commit_add, Call, direct, commit, perform, serve, Distinct,
  Distinct-append, Authorized, Among, Among-append,
}

-- A commit that raises changes nothing; one that returns has the right token and a new id.
abbrev Committed : RegistryRecord → ℕ → Registry → Registry → Type 0
Committed r t g g' =
    (g' ≡ g)
    ⊎ ((nat_beq t g.commit_token ≡ true)
        × (has_id r.record_id g.records ≡ false)
        × (g' ≡ record g { records = g.records ++ r ∷ [] }))

commit_add-Committed :
    (r : RegistryRecord) (t : ℕ) (g : Registry) → Committed r t g (commit_add r t g).1
unfolding commit_add
commit_add-Committed r t g = elim (Bool-cases (nat_beq t g.commit_token)) [
  | inl right ↦ elim (Bool-cases (has_id r.record_id g.records)) [
    | inl there ↦ inl (rw (right, there, commit_add) refl)
    | inr new ↦ inr (right, new, rw (right, new, commit_add) refl)
  ]
  | inr wrong ↦ inl (rw (wrong, commit_add) refl)
]

-- What holds after the calls: the token is the same, ids differ, and records are authorized.
pub record Kept (cs : List Call) (g g' : Registry) : Type 0 where
  pub token : g'.commit_token ≡ g.commit_token
  pub distinct : Distinct g'.records
  pub source :
      (r : RegistryRecord) → Among r g'.records → Among r g.records ⊎ Authorized g.commit_token cs r

earlier :
    (x : RegistryRecord) (t : ℕ) (cs : List Call) (g : Registry) (g' : Registry)
    → Kept cs g g'
    → Kept (commit x t ∷ cs) g g'
earlier x t cs g g' k = record {
  token = k.token;
  distinct = k.distinct;
  source = λ r. λ h. elim (k.source r h) [ inl old ↦ inl old | inr later ↦ inr (inr later) ];
}

added :
    (x : RegistryRecord) (t : ℕ) (cs : List Call) (g g' : Registry)
    → nat_beq t g.commit_token ≡ true
    → Kept cs (record g { records = g.records ++ x ∷ [] }) g'
    → Kept (commit x t ∷ cs) g g'
added x t cs g g' right k = record {
  token = k.token;
  distinct = k.distinct;
  source = λ r. λ h. elim (k.source r h) [
    | inl old ↦ elim (Among-append r x g.records old) [
      | inl there ↦ inl there
      | inr e ↦ inr (inl (e, right))
    ]
    | inr later ↦ inr (inr later)
  ];
}

-- Whatever calls are made, the registry keeps its token, no two records have one id, and every record
-- was there before or was committed by a call that held the registry's own token.
pub serve-Kept : (cs : List Call) (g : Registry) → Distinct g.records → Kept cs g (serve cs g)
unfolding serve perform add
serve-Kept [] g d = record { token = refl; distinct = d; source = λ r. λ h. inl h }
serve-Kept (direct x ∷ cs) g d =
    let k = serve-Kept cs g d in
    record { token = k.token; distinct = k.distinct; source = k.source }
serve-Kept (commit x t ∷ cs) g d = elim (commit_add-Committed x t g) [
  | inl same ↦
      subst (λ (s : Registry). Kept (commit x t ∷ cs) g (serve cs s)) (sym same)
        (earlier x t cs g (serve cs g) (serve-Kept cs g d))
  | inr (right, new, grown) ↦
      let g1 : Registry = record g { records = g.records ++ x ∷ [] } in
      subst (λ (s : Registry). Kept (commit x t ∷ cs) g (serve cs s)) (sym grown)
        (added x t cs g (serve cs g1) right (serve-Kept cs g1 (Distinct-append g.records x d new)))
]
