-- ===== src/Registry/Tests.antt =====
-- Calls of a registry that hold and that lack its token.
use jamp.Prelude.{String, ◌≡◌, refl, List, [], ◌∷◌}
use jamp.Canonical.{str, end, field, text}
use jamp.Registry.{
  RegistryRecord, Registry, add, commit_add, by_kind, facts, Call, direct, commit, perform, serve,
}
use jamp.Registry.Commits.{Kept, serve-Kept}

abbrev fact : String → RegistryRecord
fact id = record { record_id = id; kind = "fact"; payload = field (text "statement") (str id) end }

abbrev new_registry : Registry
new_registry = record { records = []; commit_token = 7 }

abbrev calls : List Call
calls = commit (fact "a") 7 ∷ direct (fact "b") ∷ commit (fact "c") 8 ∷ commit (fact "a") 7 ∷ []

one_record : facts (serve calls new_registry) ≡ str "a" ∷ []
unfolding facts by_kind serve perform add commit_add
one_record = refl

serve-Kept_example : Kept calls new_registry (serve calls new_registry)
serve-Kept_example = serve-Kept calls new_registry tt
