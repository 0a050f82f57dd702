-- ===== src/History/Ancestry.antt =====
-- The ids that the loop of `replay_until` collects are those from which the target descends.
use jamp.Prelude.{
  ℕ, zero, suc, ◌+◌, ◌≤◌, ◌<◌, String, ◌≡◌, refl, Bool, true, false, ◌||◌, Option, none, some, List,
  [], ◌∷◌, ok, length, ◌==◌, if◌then◌else◌, arith, inl, inr, ◌⊎◌, Bool-cases, ap, sym, subst, ◌∙◌,
  eq_iff,
}
use text.Mathlib.TextPositions.{eq_refl}
use jamp.Prelude.Dict.{lookup, has_key, contains, is_some}
use jamp.Causal.Order.{EventNode, Nodes}
use jamp.History.Event.{Result}
use jamp.History.Until.{extend, ancestors, edges, ancestry}

-- The second id is the first, or a parent's parent of it.
pub data Precedes (nodes : Nodes) (target : String) : String → Type 0 where
  itself : Precedes nodes target target
  parent :
      (k p : String) (n : EventNode)
      → Precedes nodes target k
      → lookup k nodes ≡ some n
      → contains p n.parent_ids ≡ true
      → Precedes nodes target p

-- The parents of the nodes that are not seen yet.
open_edges : Nodes → List String → ℕ
open_edges [] seen = 0
open_edges ((k, n) ∷ rest) seen =
    (if contains k seen then 0 else length n.parent_ids) + open_edges rest seen

open_edges-none : (nodes : Nodes) → open_edges nodes [] ≡ edges nodes
unfolding open_edges
open_edges-none [] = refl
open_edges-none ((k, n) ∷ rest) = ap (λ m. length n.parent_ids + m) (open_edges-none rest)

open_edges-le :
    (nodes : Nodes) (k : String) (seen : List String)
    → open_edges nodes (k ∷ seen) ≤ open_edges nodes seen
unfolding open_edges
open_edges-le [] k seen = omega arith
open_edges-le ((j, n) ∷ rest) k seen = ground (arith, open_edges-le rest k seen)

eq_iff_sym : (j k : String) → (j == k) ≡ true → (k == j) ≡ true
eq_iff_sym j k h = (eq_iff k j).1 (sym ((eq_iff j k).0 h))

differ_sym : (j k : String) → (j == k) ≡ false → (k == j) ≡ false
differ_sym j k h = ground (arith, h, eq_iff j k, eq_iff k j)

open_edges-seen :
    (nodes : Nodes) (k : String) (n : EventNode) (seen : List String)
    → lookup k nodes ≡ some n
    → contains k seen ≡ false
    → open_edges nodes (k ∷ seen) + length n.parent_ids ≤ open_edges nodes seen
unfolding open_edges
open_edges-seen [] k n seen h new = absurd (cc h)
open_edges-seen ((j, m) ∷ rest) k n seen h new = elim (Bool-cases (j == k)) [
  | inl same ↦
      let is_n : m ≡ n = cc (rw same at h) in
      let is_k = (eq_iff j k).0 same in
      let new_j = subst (λ x. contains x seen ≡ false) (sym is_k) new in
      rw (eq_iff_sym j k same, new_j)
        (omega (arith, open_edges-le rest k seen, ap (λ (x : EventNode). length x.parent_ids) is_n))
  | inr differ ↦
      let later = open_edges-seen rest k n seen (rw differ at h) new in
      rw (differ_sym j k differ) (omega (arith, later))
]

length-extend : (ps pending : List String) → length (extend ps pending) ≡ length ps + length pending
length-extend [] pending = omega arith
length-extend (p ∷ ps) pending = omega (arith, length-extend ps (p ∷ pending))

contains-extend :
    (x : String) (ps pending : List String)
    → contains x (extend ps pending) ≡ (contains x ps || contains x pending)
contains-extend x [] pending = refl
contains-extend x (p ∷ ps) pending = ground (arith, contains-extend x ps (p ∷ pending))

ancestors-seen :
    (nodes : Nodes) (fuel : ℕ) (id : String) (pending seen : List String)
    → contains id seen ≡ true
    → ancestors nodes (suc fuel) (id ∷ pending) seen ≡ ancestors nodes fuel pending seen
unfolding ancestors
ancestors-seen nodes fuel id pending seen h = rw (h, ancestors) refl

ancestors-new :
    (nodes : Nodes) (fuel : ℕ) (id : String) (n : EventNode) (pending seen : List String)
    → contains id seen ≡ false
    → lookup id nodes ≡ some n
    → ancestors nodes (suc fuel) (id ∷ pending) seen
      ≡ ancestors nodes fuel (extend n.parent_ids pending) (id ∷ seen)
unfolding ancestors
ancestors-new nodes fuel id n pending seen h e = rw (h, e, ancestors) refl

skipped :
    (x id : String) (pending seen : List String)
    → contains id seen ≡ true
    → (contains x seen || contains x (id ∷ pending)) ≡ (contains x seen || contains x pending)
skipped x id pending seen old = elim (Bool-cases (id == x)) [
  | inl same ↦ rw (subst (λ y. contains y seen ≡ true) ((eq_iff id x).0 same) old) refl
  | inr differ ↦ rw differ refl
]

opened :
    (x id : String) (ps pending seen : List String)
    → (contains x (id ∷ seen) || contains x (extend ps pending))
      ≡ ((contains x seen || contains x (id ∷ pending)) || contains x ps)
opened x id ps pending seen = ground (arith, contains-extend x ps pending)

-- What the loop keeps: the ids in hand precede the target, which is in hand, and the parents of a seen id
-- are in hand.
record Front (nodes : Nodes) (target : String) (pending seen : List String) : Type 0 where
  sound : (x : String) → (contains x seen || contains x pending) ≡ true → Precedes nodes target x
  started : (contains target seen || contains target pending) ≡ true
  closed :
      (k p : String) (n : EventNode)
      → contains k seen ≡ true
      → lookup k nodes ≡ some n
      → contains p n.parent_ids ≡ true
      → (contains p seen || contains p pending) ≡ true

-- Every parent is there.
abbrev pub ParentsKnown : Nodes → Type 0
ParentsKnown nodes =
    (k p : String) (n : EventNode)
    → lookup k nodes ≡ some n
    → contains p n.parent_ids ≡ true
    → has_key p nodes ≡ true

-- The loop returns a set of exactly the ids that precede the target.
abbrev pub Collects : Nodes → String → Option (Result (List String)) → Type 0
Collects nodes target r =
    (seen : List String) × (r ≡ some (ok seen))
    × ((x : String) → contains x seen ≡ true → Precedes nodes target x)
    × ((x : String) → Precedes nodes target x → contains x seen ≡ true)

module _ (nodes : Nodes) (target : String) (known : ParentsKnown nodes)
    (there : has_key target nodes ≡ true) where
  Precedes-known : (x : String) → Precedes nodes target x → has_key x nodes ≡ true
  Precedes-known x itself = there
  Precedes-known x (parent k p n below e h) = known k p n e h

  closed-Precedes :
      (seen : List String)
      → Front nodes target [] seen
      → (x : String) → Precedes nodes target x
      → contains x seen ≡ true
  closed-Precedes seen f x itself = ground (arith, f.started)
  closed-Precedes seen f x (parent k p n below e h) =
      ground (arith, f.closed k p n (closed-Precedes seen f k below) e h)

  skip-Front :
      (id : String) (pending seen : List String)
      → contains id seen ≡ true
      → Front nodes target (id ∷ pending) seen
      → Front nodes target pending seen
  skip-Front id pending seen old f = record {
    sound = λ x. λ h. f.sound x (skipped x id pending seen old ∙ h);
    started = sym (skipped target id pending seen old) ∙ f.started;
    closed = λ k.
        λ p. λ n. λ hk. λ e. λ hp. sym (skipped p id pending seen old) ∙ f.closed k p n hk e hp;
  }

  open-Front :
      (id : String) (n : EventNode) (pending seen : List String)
      → lookup id nodes ≡ some n
      → Front nodes target (id ∷ pending) seen
      → Front nodes target (extend n.parent_ids pending) (id ∷ seen)
  open-Front id n pending seen e f = record {
    sound = λ x. λ h. sound x (sym (opened x id n.parent_ids pending seen) ∙ h);
    started = opened target id n.parent_ids pending seen ∙ rw (f.started) refl;
    closed = λ k.
        λ p. λ m. λ hk. λ em. λ hp. opened p id n.parent_ids pending seen ∙ closed k p m hk em hp;
  }
    where
      here : (contains id seen || contains id (id ∷ pending)) ≡ true
      here = rw (eq_refl id) (ground arith)

      either : (a b : Bool) → (a || b) ≡ true → (a ≡ true) ⊎ (b ≡ true)
      either true b h = inl refl
      either false b h = inr h

      left : (a b : Bool) → a ≡ true → (a || b) ≡ true
      left a b h = rw h refl

      right : (a b : Bool) → b ≡ true → (a || b) ≡ true
      right true b h = refl
      right false b h = h

      sound :
          (x : String)
          → ((contains x seen || contains x (id ∷ pending)) || contains x n.parent_ids) ≡ true
          → Precedes nodes target x
      sound x h =
          elim (either (contains x seen || contains x (id ∷ pending)) (contains x n.parent_ids) h) [
            | inl old ↦ f.sound x old
            | inr is_parent ↦ parent id x n (f.sound id here) e is_parent
          ]

      some_same : {a b : EventNode} → some a ≡ some b → a ≡ b
      some_same h = cc

      closed :
          (k p : String) (m : EventNode)
          → (id == k || contains k seen) ≡ true
          → lookup k nodes ≡ some m
          → contains p m.parent_ids ≡ true
          → ((contains p seen || contains p (id ∷ pending)) || contains p n.parent_ids) ≡ true
      closed k p m hk em hp = elim (either (id == k) (contains k seen) hk) [
        | inl same ↦
            let is_n : m ≡ n =
              some_same (sym em ∙ subst (λ y. lookup y nodes ≡ some n) ((eq_iff id k).0 same) e) in
            right _ (contains p n.parent_ids)
              (subst (λ (y : EventNode). contains p y.parent_ids ≡ true) is_n hp)
        | inr old ↦ left _ _ (f.closed k p m old em hp)
      ]

  -- The fuel is enough: every round takes an id from `pending`, and a node adds its parents once.
  ancestors-Collects :
      (fuel : ℕ) (pending seen : List String)
      → length pending + open_edges nodes seen < fuel
      → Front nodes target pending seen
      → Collects nodes target (ancestors nodes fuel pending seen)
  unfolding ancestors
  ancestors-Collects zero pending seen h f = absurd (omega (arith, h))
  ancestors-Collects (suc fuel) [] seen h f =
      (seen, refl, (λ x. λ k. f.sound x (rw k refl)), closed-Precedes seen f)
  ancestors-Collects (suc fuel) (id ∷ pending) seen h f = elim (Bool-cases (contains id seen)) [
    | inl old ↦
        rw (ancestors-seen nodes fuel id pending seen old) (
          ancestors-Collects fuel pending seen (omega (arith, h))
            (skip-Front id pending seen old f))
    | inr new ↦
        let (n, e) =
          node_of (lookup id nodes) (Precedes-known id (f.sound id (first id pending seen))) in
        rw (ancestors-new nodes fuel id n pending seen new e) (
          ancestors-Collects fuel (extend n.parent_ids pending) (id ∷ seen)
            (omega
              (arith, h, length-extend n.parent_ids pending, open_edges-seen nodes id n seen e new))
            (open-Front id n pending seen e f))
  ]
    where
      node_of : (o : Option EventNode) → is_some o ≡ true → (n : EventNode) × (o ≡ some n)
      node_of none h = cc
      node_of (some n) h = (n, refl)

      first :
          (id : String) (pending seen : List String)
          → (contains id seen || contains id (id ∷ pending)) ≡ true
      first id pending seen = rw (eq_refl id) (ground arith)

  pub ancestry-Collects : Collects nodes target (ancestry nodes target)
  unfolding ancestry
  ancestry-Collects =
      ancestors-Collects (suc (suc (edges nodes))) (target ∷ []) []
        (omega (arith, open_edges-none nodes))
        (record {
          sound = λ x. λ h. only x h;
          started = rw (eq_refl target) refl;
          closed = λ k. λ p. λ n. λ h. absurd (never h);
        })
    where
      only : (x : String) → contains x (target ∷ []) ≡ true → Precedes nodes target x
      only x h = subst (Precedes nodes target) ((eq_iff target x).0 (ground (arith, h))) itself

      never : false ≡ true → ⊥
      never h = cc
