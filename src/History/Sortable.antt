-- ===== src/History/Sortable.antt =====
-- What the checks of a graph mean, and that a graph which passes them can be put in causal order.
use jamp.Prelude.{
  ℕ, suc, ◌<◌, String, ◌≡◌, refl, Bool, true, false, not, ◌&&◌, Option, none, some, List, [], ◌∷◌,
  All, ok, err, ◌>>◌, require, refuse_if, all, leb, ◌==◌, if◌then◌else◌, arith, inl, inr,
  Bool-cases, sym, subst, ◌∙◌, eq_iff,
}
use jamp.Prelude.Dict.{DistinctKeys, lookup, has_key, contains, is_some}
use jamp.Causal.Order.{EventNode, Nodes, parents_known}
use jamp.Causal.Nodes.{Indexed}
use jamp.Causal.Acyclic.{RankedNodes}
use jamp.History.Event.{
  Digester, HistoryError, empty_graph_digest, genesis_digest, genesis_with_parents,
  duplicate_parents, missing_parent, parent_not_before, id_mismatch,
}
use jamp.History.Dag.{genesis_id}
use jamp.History.Check.{
  Done, for_each, check_id, unique_ids, genesis, position, is_empty, all_differ, check_parent,
  check_parents, parents_exist_and_precede, parent_order, hash_chain, acyclic, connectivity,
  and_then, validate,
}
use jamp.History.Ancestry.{ParentsKnown}

then_ok : (a b : Done) → (a >> b) ≡ ok tt → (a ≡ ok tt) × (b ≡ ok tt)
then_ok (ok u) b h = (refl, h)
then_ok (err e) b h = cc

for_each-All :
    {A : Type 0} (f : A → Done) (xs : List A) → for_each f xs ≡ ok tt → All (λ x. f x ≡ ok tt) xs
for_each-All f [] h = tt
for_each-All f (x ∷ xs) h = let (a, b) = then_ok (f x) (for_each f xs) h in (a, for_each-All f xs b)

at_entry :
    (P : String × EventNode → Type 0) (nodes : Nodes) (k : String) (n : EventNode)
    → All P nodes
    → lookup k nodes ≡ some n
    → P (k, n)
at_entry P [] k n a h = absurd (cc h)
at_entry P ((j, m) ∷ rest) k n a h = elim (Bool-cases (j == k)) [
  | inl same ↦
      let is_n : m ≡ n = cc (rw same at h) in
      subst (λ x. P (k, x)) is_n (subst (λ x. P (x, m)) ((eq_iff j k).0 same) a.0)
  | inr differ ↦ at_entry P rest k n a.1 (rw differ at h)
]

at_text :
    (P : String → Type 0) (xs : List String) (x : String) → All P xs → contains x xs ≡ true → P x
at_text P [] x a h = absurd (cc h)
at_text P (y ∷ ys) x a h = elim (Bool-cases (y == x)) [
  | inl same ↦ subst P ((eq_iff y x).0 same) a.0
  | inr differ ↦ at_text P ys x a.1 (rw differ at h)
]

-- The graph passed every check.
pub record Checked (d : Digester) (nodes : Nodes) : Type 0 where
  pub ids : unique_ids nodes ≡ ok tt
  pub rooted : genesis d nodes ≡ ok tt
  pub parents : parents_exist_and_precede nodes ≡ ok tt
  pub sorted : parent_order nodes ≡ ok tt
  pub acyclic_ok : acyclic nodes ≡ some (ok tt)
  pub connected : connectivity nodes ≡ some (ok tt)
  pub hashes : hash_chain d nodes ≡ ok tt

pub validate-Checked :
    (d : Digester) (nodes : Nodes) → validate d nodes ≡ some (ok tt) → Checked d nodes
unfolding validate
validate-Checked d nodes h =
    let (a, rest) =
      both
        (some (
          unique_ids nodes
          >> genesis d nodes
          >> parents_exist_and_precede nodes
          >> parent_order nodes))
        _ h in
    let (x, rest2) = both (acyclic nodes) _ rest in
    let (y, z) = both (connectivity nodes) _ rest2 in
    let (abc, e) =
      then_ok (unique_ids nodes >> genesis d nodes >> parents_exist_and_precede nodes)
        (parent_order nodes) (inner _ a) in
    let (ab, c) =
      then_ok (unique_ids nodes >> genesis d nodes) (parents_exist_and_precede nodes) abc in
    let (i, g) = then_ok (unique_ids nodes) (genesis d nodes) ab in
    record {
      ids = i;
      rooted = g;
      parents = c;
      sorted = e;
      acyclic_ok = x;
      connected = y;
      hashes = inner _ z;
    }
  where
    both :
        (a k : Option Done) → and_then a k ≡ some (ok tt) → (a ≡ some (ok tt)) × (k ≡ some (ok tt))
    both none k h = cc
    both (some (err e)) k h = cc
    both (some (ok u)) k h = (refl, h)

    inner : (a : Done) → some a ≡ some (ok tt) → a ≡ ok tt
    inner a h = cc

at_genesis :
    (d : Digester) (nodes : Nodes) (g : EventNode)
    → lookup genesis_id nodes ≡ some g
    → genesis d nodes ≡ ok tt
    → (require (is_empty g.parent_ids) genesis_with_parents
        >> require (g.previous_graph_digest == empty_graph_digest d) genesis_digest)
      ≡ ok tt
unfolding genesis
at_genesis d nodes g h r = cc (h, r)

module _ (d : Digester) (nodes : Nodes) (c : Checked d nodes) where
  parent-checked :
      (k p : String) (n : EventNode)
      → lookup k nodes ≡ some n
      → contains p n.parent_ids ≡ true
      → check_parent nodes k p ≡ ok tt
  unfolding parents_exist_and_precede
  parent-checked k p n h there =
      let entry =
        at_entry (λ e. check_parents nodes e ≡ ok tt) nodes k n
          (for_each-All (check_parents nodes) nodes c.parents) h in
      let each = (then_ok (require (all_differ n.parent_ids) duplicate_parents) _ entry).1 in
      at_text (λ q. check_parent nodes k q ≡ ok tt) n.parent_ids p
        (for_each-All (check_parent nodes k) n.parent_ids each) there

  pub Checked-ParentsKnown : ParentsKnown nodes
  Checked-ParentsKnown k p n h there = present (has_key p nodes) _ (parent-checked k p n h there)
    where
      present : (b : Bool) (rest : Done) → (require b missing_parent >> rest) ≡ ok tt → b ≡ true
      present true rest h = refl
      present false rest h = cc

  -- Genesis is lowest, and every other event stands above the events before it.
  pub rank : String → ℕ
  rank k = if k == genesis_id then 0 else suc (position 0 k nodes)

  no_parents :
      (g : EventNode) (p : String)
      → lookup genesis_id nodes ≡ some g
      → contains p g.parent_ids ≡ false
  no_parents g p h =
      empty g.parent_ids
        (then_ok (require (is_empty g.parent_ids) genesis_with_parents) _
          (at_genesis d nodes g h c.rooted)).0
    where
      empty :
          (ps : List String)
          → require (is_empty ps) genesis_with_parents ≡ ok tt
          → contains p ps ≡ false
      empty [] h = refl
      empty (q ∷ qs) h = cc

  below :
      (k p : String) (n : EventNode)
      → lookup k nodes ≡ some n
      → contains p n.parent_ids ≡ true
      → rank p < rank k
  unfolding rank
  below k p n h there = elim (Bool-cases (k == genesis_id)) [
    | inl first ↦
        let at_first = subst (λ x. lookup x nodes ≡ some n) ((eq_iff k genesis_id).0 first) h in
        absurd (clash (sym there ∙ no_parents n p at_first))
    | inr later ↦ rw later (
        ordered (p == genesis_id) (position 0 k nodes) (position 0 p nodes)
          (then_ok (require (has_key p nodes) missing_parent) _ (parent-checked k p n h there)).1)
  ]
    where
      clash : true ≡ false → ⊥
      clash h = cc

      fails : {e : HistoryError} → ◌≡◌ {A = Done} (err e) (ok tt) → ⊥
      fails h = cc

      ordered :
          (b : Bool) (i j : ℕ)
          → refuse_if (not b && leb i j) parent_not_before ≡ ok tt
          → (if b then 0 else suc j) < suc i
      ordered true i j h = omega arith
      ordered false i j h = elim (Bool-cases (leb i j)) [
        | inl not_before ↦ absurd (fails (rw not_before at h))
        | inr before ↦ ground (arith, before)
      ]

  pub Checked-RankedNodes : RankedNodes rank nodes
  Checked-RankedNodes k n h p there =
      (known (lookup p nodes) (Checked-ParentsKnown k p n h there), below k p n h there)
    where
      known : (o : Option EventNode) → is_some o ≡ true → (e : EventNode) × (o ≡ some e)
      known none h = cc
      known (some e) h = (e, refl)

  same_id : (k : String) (n : EventNode) → check_id (k, n) ≡ ok tt → k ≡ n.event_id
  same_id k n h = elim (Bool-cases (k == n.event_id)) [
    | inl same ↦ (eq_iff k n.event_id).0 same
    | inr differ ↦ absurd (refused (rw differ at h))
  ]
    where
      refused : ◌≡◌ {A = Done} (err id_mismatch) (ok tt) → ⊥
      refused h = cc

  pub Checked-id : (k : String) (n : EventNode) → lookup k nodes ≡ some n → k ≡ n.event_id
  unfolding unique_ids
  Checked-id k n h =
      same_id k n
        (at_entry (λ e. check_id e ≡ ok tt) nodes k n (for_each-All check_id nodes c.ids) h)

  pub Checked-Indexed : DistinctKeys nodes → Indexed nodes
  unfolding unique_ids
  Checked-Indexed distinct = indexed nodes distinct (for_each-All check_id nodes c.ids)
    where
      indexed :
          (rest : Nodes) → DistinctKeys rest → All (λ e. check_id e ≡ ok tt) rest → Indexed rest
      indexed [] u a = tt
      indexed ((k, n) ∷ rest) u a = (same_id k n a.0, u.0, indexed rest u.1 a.1)

  pub Checked-parents_known : parents_known nodes nodes ≡ true
  unfolding parents_exist_and_precede
  Checked-parents_known = each nodes (for_each-All (check_parents nodes) nodes c.parents)
    where
      missing : (b : Bool) (rest : Done) → (require b missing_parent >> rest) ≡ ok tt → b ≡ true
      missing true rest h = refl
      missing false rest h = cc

      all_present :
          (k : String) (ps : List String)
          → All (λ p. check_parent nodes k p ≡ ok tt) ps
          → all (λ p. has_key p nodes) ps ≡ true
      all_present k [] a = refl
      all_present k (p ∷ ps) a = rw (missing (has_key p nodes) _ a.0, all_present k ps a.1) refl

      each :
          (rest : Nodes)
          → All (λ e. check_parents nodes e ≡ ok tt) rest
          → parents_known nodes rest ≡ true
      each [] a = refl
      each ((k, n) ∷ rest) a =
          let parts = then_ok (require (all_differ n.parent_ids) duplicate_parents) _ a.0 in
          rw
            (
              all_present k n.parent_ids (for_each-All (check_parent nodes k) n.parent_ids parts.1),
              each rest a.1,
            )
            refl
