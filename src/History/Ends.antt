-- ===== src/History/Ends.antt =====
-- The fuel of the two traversals of `DAGConsistencyChecker` is enough on every dict of events.
use jamp.Prelude.{
  ℕ, zero, suc, ◌+◌, ◌≤◌, ◌<◌, String, ◌≡◌, refl, true, false, some, List, [], ◌∷◌, ok, err, length,
  ◌==◌, arith, inl, inr, Bool-cases, Option-cases, ap, sym, subst, ◌∙◌, eq_iff,
}
use text.Mathlib.TextPositions.{eq_refl}
use jamp.Prelude.Dict.{lookup, keys, contains, add}
use jamp.Causal.Order.{EventNode, Nodes}
use jamp.Causal.Count.{occurs}
use jamp.Causal.Acyclic.{length-le, contains-occurs, occurs-contains, Known-key, length-keys}
use jamp.History.Event.{Result, unknown_key, cycle}
use jamp.History.Check.{
  Done, Search, Searched, search_then, remove_text, leave, visit_each, visit, no_result, acyclic,
}

-- A part of the keys, none twice.
abbrev pub Within : List String → List String → Type 0
Within ks xs = ((x : String) → occurs x xs ≤ 1) × ((x : String) → 0 < occurs x xs → 0 < occurs x ks)

pub absent : (x : String) (xs : List String) → contains x xs ≡ false → occurs x xs ≡ 0
absent x xs h = ground (arith, h, occurs-contains x xs)

pub cons-Within :
    (ks xs : List String) (k : String)
    → Within ks xs
    → contains k xs ≡ false
    → 0 < occurs k ks
    → Within ks (k ∷ xs)
cons-Within ks xs k (once, sub) new there = (once', sub')
  where
    once' : (x : String) → occurs x (k ∷ xs) ≤ 1
    once' x = elim (Bool-cases (k == x)) [
      | inl same ↦
          rw same
            (omega (arith, ap (λ y. occurs y xs) (sym ((eq_iff k x).0 same)), absent k xs new))
      | inr differ ↦ rw differ (once x)
    ]

    sub' : (x : String) → 0 < occurs x (k ∷ xs) → 0 < occurs x ks
    sub' x h = elim (Bool-cases (k == x)) [
      | inl same ↦ subst (λ y. 0 < occurs y ks) ((eq_iff k x).0 same) there
      | inr differ ↦ sub x (rw differ at h)
    ]

remove-absent : (k : String) (xs : List String) → contains k xs ≡ false → remove_text k xs ≡ xs
remove-absent k [] h = refl
remove-absent k (x ∷ xs) h = elim (Bool-cases (x == k)) [
  | inl same ↦ absurd (clash (sym (found same) ∙ h))
  | inr differ ↦ rw differ (ap (λ l. x ∷ l) (remove-absent k xs (rw differ at h)))
]
  where
    clash : true ≡ false → ⊥
    clash h = cc

    found : (x == k) ≡ true → contains k (x ∷ xs) ≡ true
    found same = rw same refl

-- The search ends, and what it returns is visiting the same ids.
abbrev Ends : List String → Searched → Type 0
Ends v m = (r : Result Search) × (m ≡ some r) × ((s : Search) → r ≡ ok s → s.visiting ≡ v)

module _ (nodes : Nodes) where
  visit_each-Ends :
      (f : String → Search → Searched) (v : List String)
      → ((p : String) (s : Search) → s.visiting ≡ v → Ends v (f p s))
      → (ps : List String) (s : Search) → s.visiting ≡ v
      → Ends v (visit_each f ps s)
  visit_each-Ends f v ends [] s h =
      (ok s, refl, (λ t. λ e. ap (λ (x : Search). x.visiting) (same t e) ∙ h))
    where
      same : (t : Search) → ◌≡◌ {A = Result Search} (ok s) (ok t) → t ≡ s
      same t e = cc
  visit_each-Ends f v ends (p ∷ ps) s h =
      let (r, e, kept) = ends p s h in
      after_first r e kept (λ t. λ k. visit_each-Ends f v ends ps t k)
    where
      after_first :
          (r : Result Search)
          → f p s ≡ some r
          → ((t : Search) → r ≡ ok t → t.visiting ≡ v)
          → ((t : Search) → t.visiting ≡ v → Ends v (visit_each f ps t))
          → Ends v (search_then (f p s) (visit_each f ps))
      after_first (err x) e kept rest = (err x, rw e refl, (λ t. λ h. cc))
      after_first (ok t) e kept rest = rw e (rest t (kept t refl))

  leave-Ends :
      (id : String) (v : List String) (m : Searched)
      → contains id v ≡ false
      → Ends (id ∷ v) m
      → Ends v (search_then m (leave id))
  leave-Ends id v m new (err x, e, kept) = (err x, rw e refl, (λ t. λ h. cc))
  leave-Ends id v m new (ok s, e, kept) =
      let left : Search = record {
        visiting = remove_text id s.visiting;
        visited = add id s.visited;
      } in
      (ok left, rw e refl, (λ t. λ h. ap (λ (x : Search). x.visiting) (same left t h) ∙ restored))
    where
      same : (s t : Search) → ◌≡◌ {A = Result Search} (ok s) (ok t) → t ≡ s
      same s t h = cc

      without : remove_text id (id ∷ v) ≡ remove_text id v
      without = rw (eq_refl id) refl

      restored : remove_text id s.visiting ≡ v
      restored = ap (λ l. remove_text id l) (kept s refl) ∙ without ∙ remove-absent id v new

  -- A node that is entered: its parents, and the node marked.
  entered : (fuel : ℕ) (id : String) (n : EventNode) (s : Search) → Searched
  entered fuel id n s =
      search_then
        (visit_each (visit nodes fuel) n.parent_ids (record s { visiting = id ∷ s.visiting }))
        (leave id)

  visit-entered :
      (fuel : ℕ) (id : String) (n : EventNode) (s : Search)
      → contains id s.visiting ≡ false
      → contains id s.visited ≡ false
      → lookup id nodes ≡ some n
      → visit nodes (suc fuel) id s ≡ entered fuel id n s
  unfolding visit entered
  visit-entered fuel id n s a b e = rw (a, b, e, visit) refl

  visit-Ends :
      (fuel : ℕ) (id : String) (s : Search)
      → Within (keys nodes) s.visiting
      → length nodes < fuel + length s.visiting
      → Ends s.visiting (visit nodes fuel id s)
  unfolding visit entered
  visit-Ends zero id s w h =
      absurd (omega (arith, h, length-le s.visiting (keys nodes) w.0 w.1, length-keys nodes))
  visit-Ends (suc fuel) id s w h = elim (Bool-cases (contains id s.visiting)) [
    | inl again ↦ (err cycle, rw again refl, (λ t. λ e. cc))
    | inr new ↦ elim (Bool-cases (contains id s.visited)) [
      | inl old ↦ (ok s, rw (new, old) refl, (λ t. λ e. same t e))
      | inr fresh ↦ elim (Option-cases (lookup id nodes)) [
        | inl missing ↦ (err unknown_key, rw (new, fresh, missing, visit) refl, (λ t. λ e. cc))
        | inr (n, e) ↦
            let v = s.visiting in
            let deeper =
              cons-Within (keys nodes) v id w new
                (contains-occurs id (keys nodes) (Known-key nodes id (n, e))) in
            subst (Ends v) (sym (visit-entered fuel id n s new fresh e)) (
              leave-Ends id v
                (visit_each (visit nodes fuel) n.parent_ids (record s { visiting = id ∷ v })) new
                (visit_each-Ends (visit nodes fuel) (id ∷ v)
                  (λ p. λ t. λ at.
                    subst (λ u. Ends u (visit nodes fuel p t)) at
                      (visit-Ends fuel p t (subst (Within (keys nodes)) (sym at) deeper)
                        (omega (arith, h, ap (λ l. length l) at))))
                  n.parent_ids (record s { visiting = id ∷ v }) refl))
      ]
    ]
  ]
    where
      same : (t : Search) → ◌≡◌ {A = Result Search} (ok s) (ok t) → t.visiting ≡ s.visiting
      same t e = cc

  pub acyclic-ends : (r : Done) × (acyclic nodes ≡ some r)
  unfolding acyclic
  acyclic-ends =
      let fuel = suc (suc (length nodes)) in
      let (r, e, kept) =
        visit_each-Ends (visit nodes fuel) []
          (λ p. λ t. λ at.
            subst (λ u. Ends u (visit nodes fuel p t)) at
              (visit-Ends fuel p t (subst (Within (keys nodes)) (sym at) empty) (omega arith)))
          (keys nodes) (record { visiting = []; visited = [] }) refl in
      result r e
    where
      none_in : (x : String) → 0 < occurs x [] → ⊥
      none_in x h = omega (arith, h)

      empty : Within (keys nodes) []
      empty = ((λ x. omega arith), (λ x. λ h. absurd (none_in x h)))

      result : {m : Searched} (r : Result Search) → m ≡ some r → (d : Done) × (no_result m ≡ some d)
      result (err x) e = (err x, rw e refl)
      result (ok s) e = (ok tt, rw e refl)
