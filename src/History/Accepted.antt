-- ===== src/History/Accepted.antt =====
-- Every graph that `EventDAG` builds passes `DAGConsistencyChecker.validate`.
use jamp.Prelude.{String, ◌≡◌, refl, Option, some, List, [], ◌∷◌, ok, ◌>>◌, sym, subst, ap}
use text.Mathlib.TextPositions.{eq_refl}
use jamp.Prelude.Sort.{sort}
use jamp.Causal.Order.{EventNode, Nodes}
use jamp.History.Event.{Digester}
use jamp.History.Dag.{EventDag, genesis_id, new_dag, Append, append_all}
use jamp.History.Check.{
  Done, for_each, check_id, unique_ids, genesis, check_parents, parents_exist_and_precede,
  check_order, parent_order, check_hash, hash_chain, acyclic, connectivity, and_then, validate,
}
use jamp.History.Grown.{Linked, Root, Grown, new_dag-Grown}
use jamp.History.Growth.{append_all-Grown}
use jamp.History.Valid.{each, check_hash_lem, entry-id, entry-parents, entry-order, entry-hash}
use jamp.History.Traversed.{grown-acyclic, grown-connectivity}

module _ (d : Digester) (g : EventNode) (rest : Nodes) (root : Root d g)
    (l : Linked d ((genesis_id, g) ∷ []) rest) where
  abbrev whole : Nodes
  whole = (genesis_id, g) ∷ rest

  first_and :
      (f : String × EventNode → Done)
      → f (genesis_id, g) ≡ ok tt
      → for_each f rest ≡ ok tt
      → for_each f whole ≡ ok tt
  first_and f a b = rw (a, b) refl

  grown-unique_ids : unique_ids whole ≡ ok tt
  unfolding unique_ids
  grown-unique_ids =
      first_and check_id (rw (sym root.keyed) refl)
        (each d whole check_id ((genesis_id, g) ∷ []) rest (entry-id d whole) l refl)

  grown-genesis : genesis d whole ≡ ok tt
  unfolding genesis
  grown-genesis = rw (root.parents, root.previous, eq_refl (d.sha256_text "[]")) refl

  grown-parents : parents_exist_and_precede whole ≡ ok tt
  unfolding parents_exist_and_precede
  grown-parents = first_and (check_parents whole) (rw (root.parents) refl) (
      each d whole (check_parents whole) ((genesis_id, g) ∷ []) rest (entry-parents d whole) l refl)

  grown-order : parent_order whole ≡ ok tt
  unfolding parent_order sort
  grown-order =
      first_and check_order (rw (root.parents) refl)
        (each d whole check_order ((genesis_id, g) ∷ []) rest (entry-order d whole) l refl)

  grown-hashes : hash_chain d whole ≡ ok tt
  unfolding hash_chain
  grown-hashes =
      first_and (check_hash d whole)
        (check_hash_lem d whole genesis_id g root.stamped (ap ok (sym root.previous)))
        (each d whole (check_hash d whole) ((genesis_id, g) ∷ []) rest (entry-hash d whole) l refl)

  grown-validate : validate d whole ≡ some (ok tt)
  unfolding validate
  grown-validate =
      all_pass (unique_ids whole) (genesis d whole) (parents_exist_and_precede whole)
        (parent_order whole) (hash_chain d whole) (acyclic whole) (connectivity whole)
        grown-unique_ids grown-genesis grown-parents grown-order grown-hashes
        (grown-acyclic d g rest l root.parents) (grown-connectivity d g rest l)
    where
      all_pass :
          (a b c e h : Done) (x y : Option Done)
          → a ≡ ok tt
          → b ≡ ok tt
          → c ≡ ok tt
          → e ≡ ok tt
          → h ≡ ok tt
          → x ≡ some (ok tt)
          → y ≡ some (ok tt)
          → and_then (some (a >> b >> c >> e)) (and_then x (and_then y (some h))) ≡ some (ok tt)
      all_pass a b c e h x y ha hb hc he hh hx hy = rw (ha, hb, hc, he, hh, hx, hy) refl

Grown-validate : (d : Digester) (dag : EventDag) → Grown d dag → validate d dag.nodes ≡ some (ok tt)
Grown-validate d dag g =
    subst (λ x. validate d x ≡ some (ok tt)) (sym g.shape)
      (grown-validate d g.first g.rest g.root g.linked)

-- The graph that any successful calls of `append_event` make of a new graph passes every check of
-- `DAGConsistencyChecker.validate`, and the two loops of the checks end within their fuel.
pub append_all-validate :
    (d : Digester) (calls : List Append) (fresh dag : EventDag)
    → new_dag d ≡ ok fresh
    → append_all d calls fresh ≡ ok dag
    → validate d dag.nodes ≡ some (ok tt)
append_all-validate d calls fresh dag made grown =
    Grown-validate d dag (append_all-Grown d calls fresh dag (new_dag-Grown d fresh made) grown)
