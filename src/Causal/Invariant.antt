-- ===== src/Causal/Invariant.antt =====
-- The invariant of the loop of `sort_causal_order`.
use jamp.Prelude.{
  ℕ, zero, suc, ◌+◌, ◌≤◌, ◌<◌, String, ◌≡◌, refl, true, false, some, List, [], ◌∷◌, ◌==◌,
  if◌then◌else◌, arith, eq_iff, inl, inr, Bool-cases, ap, ◌∙◌, sym, subst,
}
use text.Mathlib.TextPositions.{eq_refl}
use jamp.Prelude.Int.{ℤ, pos, pos_part, negsuc, ◌+ℤ◌, beq_ℤ}
use jamp.Prelude.Dict.{Dict, lookup, insert, lookup-insert}
use jamp.Prelude.Sort.{insert_sorted}
use jamp.Causal.Order.{
  EventNode, Nodes, Entry, leb_entry, Work, indegree_of, or_zero, lower, release, digest_of,
}
use jamp.Causal.Count.{occurs, open_count, ids, occurs-push}

-- Whether an event id is known.
abbrev pub Known : Nodes → String → Type 0
Known nodes x = (e : EventNode) × (lookup x nodes ≡ some e)

-- `done` has the ids in the order so far, and `cs` the children whose indegrees are still to fall.
pub record Inv (nodes : Nodes) (w : Work) (done cs : List String) : Type 0 where
  pub degree :
      (c : String) (e : EventNode)
      → lookup c nodes ≡ some e
      → indegree_of w.indegree c ≡ pos (open_count e.parent_ids done + occurs c cs)
  pub once : (x : String) → occurs x done + occurs x (ids w.ready) ≤ 1
  pub settled :
      (x : String) → 0 < occurs x done + occurs x (ids w.ready) → indegree_of w.indegree x ≡ pos 0
  pub known : (x : String) → 0 < occurs x (ids w.ready) → Known nodes x
  pub complete :
      (c : String) (e : EventNode)
      → lookup c nodes ≡ some e
      → indegree_of w.indegree c ≡ pos 0
      → 0 < occurs c done + occurs c (ids w.ready)

indegree_of-insert :
    (k j : String) (n : ℤ) (d : Dict ℤ)
    → indegree_of (insert k n d) j ≡ (if k == j then n else indegree_of d j)
indegree_of-insert k j n d = elim (Bool-cases (k == j)) [
  | inl same ↦ ap or_zero (lookup-insert k j n d) ∙ rw same refl
  | inr differ ↦ ap or_zero (lookup-insert k j n d) ∙ rw differ refl
]

one_less : (k : ℕ) → pos (suc k) +ℤ negsuc 0 ≡ pos k
unfolding ◌+ℤ◌
one_less k = ground arith

pos-suc : (a b : ℕ) → pos (a + suc b) ≡ pos (suc (a + b))
pos-suc a b = ap pos (omega arith)

pos_injective : (a b : ℕ) → pos a ≡ pos b → a ≡ b
pos_injective a b h = ap pos_part h

pos-zero : (k : ℕ) → beq_ℤ (pos k) (pos 0) ≡ true → k ≡ 0
pos-zero k h = ground arith

push_here :
    (x c g : String) (r : List Entry)
    → (c == x) ≡ true
    → occurs x (ids (insert_sorted leb_entry (g, c) r)) ≡ suc (occurs x (ids r))
push_here x c g r h = occurs-push x (g, c) r ∙ rw h refl

push_elsewhere :
    (x c g : String) (r : List Entry)
    → (c == x) ≡ false
    → occurs x (ids (insert_sorted leb_entry (g, c) r)) ≡ occurs x (ids r)
push_elsewhere x c g r h = occurs-push x (g, c) r ∙ rw h refl

module _ (nodes : Nodes) (done : List String) (c : String) (cs : List String) (w : Work)
    (e : EventNode) (i : Inv nodes w done (c ∷ cs)) (there : lookup c nodes ≡ some e) where
  abbrev m : ℕ
  m = open_count e.parent_ids done + occurs c cs

  before_lower : indegree_of w.indegree c ≡ pos (suc m)
  before_lower =
      i.degree c e there
      ∙ ap (λ n. pos (open_count e.parent_ids done + n)) (one_more c cs)
      ∙ pos-suc (open_count e.parent_ids done) (occurs c cs)
    where
      one_more : (c : String) (cs : List String) → occurs c (c ∷ cs) ≡ suc (occurs c cs)
      one_more c cs = rw (eq_refl c) refl

  abbrev n : ℤ
  n = indegree_of w.indegree c +ℤ negsuc 0

  n-pos : n ≡ pos m
  n-pos = ap (λ v. v +ℤ negsuc 0) before_lower ∙ one_less m

  -- The child is neither ready nor done before its last parent is.
  is_new : occurs c done + occurs c (ids w.ready) ≡ 0
  is_new = by_count (occurs c done + occurs c (ids w.ready)) (i.settled c)
    where
      by_count : (k : ℕ) → (0 < k → indegree_of w.indegree c ≡ pos 0) → k ≡ 0
      by_count zero s = refl
      by_count (suc k) s =
          absurd (omega (arith, pos_injective (suc m) 0 (sym before_lower ∙ s (omega arith))))

  abbrev d : Dict ℤ
  d = insert c n w.indegree

  new_degree :
      (x : String) (f : EventNode)
      → lookup x nodes ≡ some f
      → indegree_of d x ≡ pos (open_count f.parent_ids done + occurs x cs)
  new_degree x f h = elim (Bool-cases (c == x)) [
    | inl same ↦
        let is_x = (eq_iff c x).0 same in
        let is_f : e ≡ f = cc (sym there ∙ subst (λ y. lookup y nodes ≡ some f) (sym is_x) h) in
        indegree_of-insert c x n w.indegree
        ∙ rw same (
            n-pos
            ∙ subst (λ y. pos m ≡ pos (open_count f.parent_ids done + occurs y cs)) is_x
                (ap (λ (q : EventNode). pos (open_count q.parent_ids done + occurs c cs)) is_f))
    | inr differ ↦ indegree_of-insert c x n w.indegree ∙ rw differ (i.degree x f h ∙ rw differ refl)
  ]

  unchanged : (x : String) → (c == x) ≡ false → indegree_of d x ≡ indegree_of w.indegree x
  unchanged x differ = indegree_of-insert c x n w.indegree ∙ rw differ refl

  changed : (x : String) → (c == x) ≡ true → indegree_of d x ≡ pos m
  changed x same = indegree_of-insert c x n w.indegree ∙ rw same n-pos

  new_at : (x : String) → (c == x) ≡ true → occurs x done + occurs x (ids w.ready) ≡ 0
  new_at x same =
      subst (λ y. occurs y done + occurs y (ids w.ready) ≡ 0) ((eq_iff c x).0 same) is_new

  pushed :
      (g : String)
      → m ≡ 0
      → Inv nodes (record { indegree = d; ready = insert_sorted leb_entry (g, c) w.ready }) done cs
  pushed g z = record {
    degree = new_degree;
    once = λ x. elim (Bool-cases (c == x)) [
      | inl same ↦ omega (arith, push_here x c g w.ready same, new_at x same)
      | inr differ ↦ omega (arith, push_elsewhere x c g w.ready differ, i.once x)
    ];
    settled = λ x. λ h. elim (Bool-cases (c == x)) [
      | inl same ↦ changed x same ∙ ap pos z
      | inr differ ↦
          unchanged x differ ∙ i.settled x (omega (arith, h, push_elsewhere x c g w.ready differ))
    ];
    known = λ x. λ h. elim (Bool-cases (c == x)) [
      | inl same ↦ subst (Known nodes) ((eq_iff c x).0 same) (e, there)
      | inr differ ↦ i.known x (omega (arith, h, push_elsewhere x c g w.ready differ))
    ];
    complete = λ x. λ f. λ h. λ at_zero. elim (Bool-cases (c == x)) [
      | inl same ↦ omega (arith, push_here x c g w.ready same)
      | inr differ ↦ omega (
        arith,
        push_elsewhere x c g w.ready differ,
        i.complete x f h (sym (unchanged x differ) ∙ at_zero),
      )
    ];
  }

  kept : beq_ℤ n (pos 0) ≡ false → Inv nodes (record { indegree = d; ready = w.ready }) done cs
  kept above = record {
    degree = new_degree;
    once = i.once;
    settled = λ x. λ h. elim (Bool-cases (c == x)) [
      | inl same ↦ absurd (omega (arith, h, new_at x same))
      | inr differ ↦ unchanged x differ ∙ i.settled x h
    ];
    known = i.known;
    complete = λ x. λ f. λ h. λ at_zero. elim (Bool-cases (c == x)) [
      | inl same ↦ absurd (
          cc (
            sym above
            ∙ subst (λ v. beq_ℤ v (pos 0) ≡ true) (sym (n-pos ∙ sym (changed x same) ∙ at_zero))
                refl))
      | inr differ ↦ i.complete x f h (sym (unchanged x differ) ∙ at_zero)
    ];
  }

  lower-Inv : Inv nodes (lower nodes c w) done cs
  unfolding lower
  lower-Inv = elim (Bool-cases (beq_ℤ n (pos 0))) [
    | inl at_zero ↦
        rw (at_zero, lower)
          (pushed (digest_of nodes c)
            (pos-zero m (subst (λ v. beq_ℤ v (pos 0) ≡ true) n-pos at_zero)))
    | inr above ↦ rw (above, lower) (kept above)
  ]

-- All the children of an event.
pub release-Inv :
    (nodes : Nodes) (done cs : List String) (w : Work)
    → ((x : String) → 0 < occurs x cs → Known nodes x)
    → Inv nodes w done cs
    → Inv nodes (release nodes cs w) done []
unfolding release
release-Inv nodes done [] w k i = i
release-Inv nodes done (c ∷ cs) w k i =
    let (e, there) = k c (here c cs) in
    release-Inv nodes done cs (lower nodes c w) (λ x. λ h. k x (later x c cs h))
      (lower-Inv nodes done c cs w e i there)
  where
    here : (c : String) (cs : List String) → 0 < occurs c (c ∷ cs)
    here c cs = rw (eq_refl c) (omega arith)

    later : (x c : String) (cs : List String) → 0 < occurs x cs → 0 < occurs x (c ∷ cs)
    later x c cs h = ground arith
