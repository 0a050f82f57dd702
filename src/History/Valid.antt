-- ===== src/History/Valid.antt =====
-- A graph that was grown passes the checks of each entry.
use jamp.Prelude.{
  ℕ, suc, ◌+◌, ◌<◌, String, ◌≡◌, refl, Bool, true, false, not, ◌&&◌, none, some, [], ◌∷◌, ◌++◌, ok,
  ◌>>=◌, ◌>>◌, require, refuse_if, length, leb, ◌==◌, if◌then◌else◌, arith, sym, subst, ◌∙◌,
}
use mathlib.Core.List.{append_assoc}
use text.Mathlib.TextPositions.{eq_refl}
use jamp.Prelude.Dict.{lookup}
use jamp.Prelude.Sort.{sort, insert_sorted}
use jamp.Causal.Order.{EventNode, Nodes}
use jamp.History.Ids.{event_id-ne-genesis}
use jamp.History.Event.{
  Digester, Result, calculate_state_digest, calculate_previous_graph_digest, compute_digest,
  empty_graph_digest, parent_not_before, state_digest_differs, previous_digest_differs,
  digest_differs,
}
use jamp.History.Dag.{genesis_id, nodes_at}
use jamp.History.Check.{
  Done, for_each, check_id, position, check_parent, check_parents, check_order, check_hash,
  expected_previous,
}
use jamp.History.Grown.{Stamped, Fits, Linked, one_parent}

pub lookup-append :
    (k : String) (xs ys : Nodes) (n : EventNode)
    → lookup k xs ≡ some n
    → lookup k (xs ++ ys) ≡ some n
lookup-append k [] ys n h = cc
lookup-append k ((j, m) ∷ xs) ys n h = ground (arith, lookup-append k xs ys n)

position-before :
    (i : ℕ) (k : String) (xs ys : Nodes) (n : EventNode)
    → lookup k xs ≡ some n
    → position i k (xs ++ ys) < i + length xs
position-before i k [] ys n h = cc
position-before i k ((j, m) ∷ xs) ys n h = ground (arith, position-before (suc i) k xs ys n)

position-at :
    (i : ℕ) (k : String) (n : EventNode) (xs ys : Nodes)
    → lookup k xs ≡ none
    → position i k (xs ++ (k, n) ∷ ys) ≡ i + length xs
position-at i k n [] ys h = ground (arith, eq_refl k)
position-at i k n ((j, m) ∷ xs) ys h = ground (arith, position-at (suc i) k n xs ys)

-- An entry whose three digests are those that `_hash_chain` computes.
pub check_hash_lem :
    (d : Digester) (full : Nodes) (k : String) (n : EventNode)
    → Stamped d n
    → expected_previous d full (k, n) ≡ ok n.previous_graph_digest
    → check_hash d full (k, n) ≡ ok tt
check_hash_lem d full k n s p =
    steps (calculate_state_digest d n.payload) (expected_previous d full (k, n))
      (compute_digest d n) s.state p s.digest
  where
    steps :
        (a b c : Result String)
        → a ≡ ok n.state_digest
        → b ≡ ok n.previous_graph_digest
        → c ≡ ok n.digest
        → (a >>= λ s.
            require (n.state_digest == s) state_digest_differs
            >> (b >>= λ p.
                require (n.previous_graph_digest == p) previous_digest_differs
                >> (c >>= λ g. require (n.digest == g) digest_differs)))
          ≡ ok tt
    steps a b c ha hb hc =
        rw (ha, hb, hc, eq_refl n.state_digest, eq_refl n.previous_graph_digest, eq_refl n.digest)
          refl

module _ (d : Digester) (full : Nodes) where
  -- A check that holds at every entry behind those before it.
  pub each :
      (f : String × EventNode → Done) (before rest : Nodes)
      → ((xs : Nodes) (k : String) (n : EventNode) (ys : Nodes)
          → Fits d xs k n
          → xs ++ (k, n) ∷ ys ≡ full
          → f (k, n) ≡ ok tt)
      → Linked d before rest
      → before ++ rest ≡ full
      → for_each f rest ≡ ok tt
  each f before [] p l whole = refl
  each f before ((k, n) ∷ rest) p l whole =
      rw (p before k n rest l.0 whole)
        (each f (before ++ (k, n) ∷ []) rest p l.1 (append_assoc before ((k, n) ∷ []) rest ∙ whole))

  module _ (xs : Nodes) (k : String) (n : EventNode) (ys : Nodes) (f : Fits d xs k n)
      (whole : xs ++ (k, n) ∷ ys ≡ full) where
    pub entry-id : check_id (k, n) ≡ ok tt
    entry-id = rw (sym f.keyed, eq_refl k) refl

    known_parent : lookup f.parent full ≡ some f.parent_node
    known_parent =
        subst (λ x. lookup f.parent x ≡ some f.parent_node) whole
          (lookup-append f.parent xs ((k, n) ∷ ys) f.parent_node f.there)

    parent_first : leb (position 0 k full) (position 0 f.parent full) ≡ false
    parent_first =
        subst (λ x. leb (position 0 k x) (position 0 f.parent x) ≡ false) whole
          (ground (
            arith,
            position-at 0 k n xs ys f.fresh,
            position-before 0 f.parent xs ((k, n) ∷ ys) f.parent_node f.there,
          ))

    parent-ok : check_parent full k f.parent ≡ ok tt
    parent-ok = rw (known_parent, parent_first) (unguarded (f.parent == genesis_id))
      where
        unguarded : (b : Bool) → (refuse_if (not b && false) parent_not_before) ≡ ok tt
        unguarded true = refl
        unguarded false = refl

    pub entry-parents : check_parents full (k, n) ≡ ok tt
    entry-parents = rw (f.parents) (rw (parent-ok) refl)

    pub entry-order : check_order (k, n) ≡ ok tt
    unfolding sort insert_sorted
    entry-order = rw (f.parents, eq_refl f.parent) refl

    pub entry-hash : check_hash d full (k, n) ≡ ok tt
    entry-hash = check_hash_lem d full k n f.stamped (expected (k == genesis_id) not_genesis)
      where
        not_genesis : (k == genesis_id) ≡ false
        not_genesis =
            subst (λ x. (x == genesis_id) ≡ false) (sym f.numbered)
              (event_id-ne-genesis (length xs))

        one : nodes_at full n.parent_ids ≡ ok (f.parent_node ∷ [])
        one = rw (f.parents) (one_parent d full f.parent f.parent_node known_parent)

        expected :
            (b : Bool)
            → b ≡ false
            → (if b
                then ok (empty_graph_digest d)
                else nodes_at full n.parent_ids >>= calculate_previous_graph_digest d)
              ≡ ok n.previous_graph_digest
        expected b h = rw (h, one) f.previous
