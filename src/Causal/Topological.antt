-- ===== src/Causal/Topological.antt =====
-- The order that the loop of `sort_causal_order` builds.
use jamp.Prelude.{
  suc, ◌+◌, ◌<◌, String, ◌≡◌, refl, true, some, List, [], ◌∷◌, ◌++◌, ◌==◌, arith, eq_iff, inl, inr,
  Bool-cases, ap, ◌∙◌, sym, subst,
}
use text.Mathlib.TextPositions.{eq_refl}
use jamp.Prelude.Int.{ℤ, pos, pos_part}
use jamp.Prelude.Dict.{Dict, lookup, contains}
use jamp.Prelude.Sort.{leb_text, sort}
use jamp.Causal.Order.{EventNode, Nodes, Entry, children}
use jamp.Causal.Count.{
  occurs, open_count, ids, occurs-append, occurs-sort, absent-contains, open_count-done,
}
use jamp.Causal.Nodes.{Indexed, occurs-children}
use jamp.Causal.Invariant.{Known, Inv}

-- The parents of an event stand in a list.
abbrev pub ParentsIn : Nodes → String → List String → Type 0
ParentsIn nodes x pre =
    (e : EventNode)
    → lookup x nodes ≡ some e
    → (p : String) → contains p e.parent_ids ≡ true
    → contains p pre ≡ true

abbrev pub Topo : Nodes → List String → List String → Type 0
Topo nodes pre [] = Unit
Topo nodes pre (x ∷ xs) = Known nodes x × ParentsIn nodes x pre × Topo nodes (pre ++ x ∷ []) xs

append_one : (pre xs : List String) (y : String) → (pre ++ y ∷ []) ++ xs ≡ pre ++ y ∷ xs
append_one [] xs y = refl
append_one (p ∷ pre) xs y = ap (λ l. p ∷ l) (append_one pre xs y)

append_nil : (xs : List String) → xs ++ [] ≡ xs
append_nil [] = refl
append_nil (x ∷ xs) = ap (λ l. x ∷ l) (append_nil xs)

pub Topo-append :
    (nodes : Nodes) (pre xs : List String) (x : String)
    → Topo nodes pre xs
    → Known nodes x
    → ParentsIn nodes x (pre ++ xs)
    → Topo nodes pre (xs ++ x ∷ [])
Topo-append nodes pre [] x t k p = (k, subst (ParentsIn nodes x) (append_nil pre) p, tt)
Topo-append nodes pre (y ∷ ys) x t k p = (
  t.0,
  t.1,
  Topo-append nodes (pre ++ y ∷ []) ys x t.2 k
      (subst (ParentsIn nodes x) (sym (append_one pre ys y)) p),
)

all_done :
    (ps done : List String) (p : String)
    → open_count ps done ≡ 0
    → contains p ps ≡ true
    → contains p done ≡ true
all_done [] done p z h = cc
all_done (q ∷ qs) done p z h = elim (Bool-cases (contains q done)) [
  | inl q_done ↦ elim (Bool-cases (q == p)) [
    | inl same ↦ subst (λ y. contains y done ≡ true) ((eq_iff q p).0 same) q_done
    | inr differ ↦ all_done qs done p (rw q_done at z) (rw differ at h)
  ]
  | inr q_open ↦ absurd (omega (arith, rw q_open at z))
]

module _ (nodes : Nodes) (indexed : Indexed nodes) (d : Dict ℤ) (g id : String) (rest : List Entry)
    (done : List String)
    (i : Inv nodes (record { indegree = d; ready = (g, id) ∷ rest }) done []) where
  head_counts :
      (y : String) → (id == y) ≡ true → occurs y (id ∷ ids rest) ≡ suc (occurs y (ids rest))
  head_counts y h = rw h refl

  pub head-Known : Known nodes id
  head-Known = i.known id (omega (arith, head_counts id (eq_refl id)))

  not_done : occurs id done ≡ 0
  not_done = omega (arith, head_counts id (eq_refl id), i.once id)

  shifted :
      (x : String)
      → occurs x (done ++ id ∷ []) + occurs x (ids rest) ≡ occurs x done + occurs x (id ∷ ids rest)
  shifted x = ground (arith, occurs-append x done (id ∷ []))

  pub parents_done : ParentsIn nodes id done
  parents_done e h p there =
      let zero_degree = i.settled id (omega (arith, head_counts id (eq_refl id))) in
      all_done e.parent_ids done p
        (omega (arith, ap pos_part (sym (i.degree id e h) ∙ zero_degree))) there

  abbrev cs : List String
  cs = sort leb_text (children id nodes)

  pub popped : Inv nodes (record { indegree = d; ready = rest }) (done ++ id ∷ []) cs
  popped = record {
    degree = λ c. λ e. λ h.
        i.degree c e h
        ∙ ap pos (
            omega (
              arith,
              open_count-done id done e.parent_ids (absent-contains id done not_done),
              occurs-sort leb_text c (children id nodes),
              occurs-children c id nodes e indexed h,
            ));
    once = λ x. omega (arith, shifted x, i.once x);
    settled = λ x. λ h. i.settled x (omega (arith, h, shifted x));
    known = λ x. λ h. i.known x (grows x h);
    complete = λ c. λ e. λ h. λ z. omega (arith, shifted c, i.complete c e h z);
  }
    where
      grows : (x : String) → 0 < occurs x (ids rest) → 0 < occurs x (id ∷ ids rest)
      grows x h = ground arith
