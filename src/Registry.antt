-- ===== src/Registry.antt =====
-- src/jamp/registry/registry.py: the append-only registry behind the commit gateway. An opaque `object()`
-- is a number, which stands for its identity.
pub mod Commits
mod Tests
use jamp.Prelude.{
  ℕ, String, ◌≡◌, refl, Bool, true, false, not, ◌&&◌, ◌||◌, Option, none, some, List, [], ◌∷◌, ◌++◌,
  any, Except, ok, err, nat_beq, ◌==◌, if◌then◌else◌, arith, Bool-cases, inl, inr, ◌⊎◌, eq_iff,
}
use jamp.Canonical.{Value, Fields}
use jamp.Ledger.{get_field}

pub record RegistryRecord : Type 0 where
  pub record_id : String
  pub kind : String
  pub payload : Fields

pub data RegistryError : Type 0 where
  unauthorized_registry_mutation duplicate_record_id : RegistryError

pub record Registry : Type 0 where
  pub records : List RegistryRecord
  pub commit_token : ℕ

abbrev pub Action : Type 0
Action = Registry → Except RegistryError (Unit {0}) × Registry

-- `add` refuses every record.
unfoldable pub add : RegistryRecord → Action
add r g = (err unauthorized_registry_mutation, g)

abbrev pub has_id : String → List RegistryRecord → Bool
has_id k rs = any (λ (r : RegistryRecord). r.record_id == k) rs

-- `_commit_add`
unfoldable pub commit_add : RegistryRecord → ℕ → Action
commit_add r token g =
    if not (nat_beq token g.commit_token)
    then (err unauthorized_registry_mutation, g)
    else if has_id r.record_id g.records
    then (err duplicate_record_id, g)
    else (ok tt, record g { records = g.records ++ r ∷ [] })

-- `by_kind`
unfoldable pub by_kind : String → List RegistryRecord → List RegistryRecord
by_kind k [] = []
by_kind k (r ∷ rs) = let rest = by_kind k rs in if r.kind == k then r ∷ rest else rest

abbrev statement_of : Option Value → List Value → List Value
statement_of none rest = rest
statement_of (some v) rest = v ∷ rest

abbrev statements : List RegistryRecord → List Value
statements [] = []
statements (r ∷ rs) = statement_of (get_field "statement" r.payload) (statements rs)

-- `facts`, the members of the frozen set in the order of the records.
unfoldable pub facts : Registry → List Value
unfolding by_kind
facts g = statements (by_kind "fact" g.records)

-- A call of one of the two methods.
pub data Call : Type 0 where
  direct : RegistryRecord → Call
  commit : RegistryRecord → ℕ → Call

unfoldable pub perform : Call → Action
unfolding add commit_add
perform (direct r) g = add r g
perform (commit r token) g = commit_add r token g

-- A client that goes on after an exception.
unfoldable pub serve : List Call → Registry → Registry
unfolding perform
serve [] g = g
serve (c ∷ cs) g = serve cs (perform c g).1

abbrev pub Distinct : List RegistryRecord → Type 0
Distinct [] = Unit
Distinct (r ∷ rs) = (has_id r.record_id rs ≡ false) × Distinct rs

-- A record comes from the start, or from a commit with the registry's own token.
abbrev pub Authorized : ℕ → List Call → RegistryRecord → Type 0
Authorized token [] r = ⊥
Authorized token (direct x ∷ cs) r = Authorized token cs r
Authorized token (commit x t ∷ cs) r = ((x ≡ r) × (nat_beq t token ≡ true)) ⊎ Authorized token cs r

abbrev pub Among : RegistryRecord → List RegistryRecord → Type 0
Among r [] = ⊥
Among r (x ∷ xs) = (x ≡ r) ⊎ Among r xs

has_id-append :
    (k : String) (rs : List RegistryRecord) (r : RegistryRecord)
    → has_id k (rs ++ r ∷ []) ≡ (has_id k rs || r.record_id == k)
has_id-append k [] r = ground arith
has_id-append k (x ∷ xs) r = ground (arith, has_id-append k xs r)

pub Distinct-append :
    (rs : List RegistryRecord) (r : RegistryRecord)
    → Distinct rs
    → has_id r.record_id rs ≡ false
    → Distinct (rs ++ r ∷ [])
Distinct-append [] r d n = (refl, tt)
Distinct-append (x ∷ xs) r d n = (
  ground (
    arith,
    has_id-append x.record_id xs r,
    d.0,
    eq_iff x.record_id r.record_id,
    eq_iff r.record_id x.record_id,
  ),
  Distinct-append xs r d.1 (ground arith),
)

pub Among-append :
    (r x : RegistryRecord) (xs : List RegistryRecord)
    → Among r (xs ++ x ∷ [])
    → Among r xs ⊎ (x ≡ r)
Among-append r x [] (inl e) = inr e
Among-append r x [] (inr h) = absurd h
Among-append r x (y ∷ ys) (inl e) = inl (inl e)
Among-append r x (y ∷ ys) (inr h) = elim (Among-append r x ys h) [
  | inl there ↦ inl (inr there)
  | inr e ↦ inr e
]
