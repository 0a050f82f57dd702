-- ===== src/Causal/Nodes.antt =====
-- The events of `_prepare` as a dict by their ids, and the children of an event in it.
use jamp.Prelude.{
  suc, ◌+◌, String, ◌≡◌, refl, Bool, true, false, ◌||◌, Option, none, some, List, [], ◌∷◌, length,
  ◌++◌, ◌==◌, if◌then◌else◌, arith, eq_iff, inl, inr, Bool-cases, ap, ◌∙◌, sym, subst, ok,
  ok-of-bind, require, ◌>>◌,
}
use mathlib.Core.List.{append_assoc, append-nil}
use jamp.Prelude.Dict.{lookup, is_some, insert, insert-new, keys, contains, has_key}
use jamp.Causal.Order.{
  EventNode, Nodes, repeated, children, index_events, prepare, parents_known, missing_parent,
}
use jamp.Causal.Count.{occurs, occurs-append}

-- The nodes are a dict of events by their ids.
abbrev pub Indexed : Nodes → Type 0
Indexed [] = Unit
Indexed ((k, e) ∷ rest) = (k ≡ e.event_id) × (contains k (keys rest) ≡ false) × Indexed rest

occurs-repeated :
    (x parent id : String) (ps : List String)
    → occurs x (repeated parent id ps) ≡ (if id == x then occurs parent ps else 0)
occurs-repeated x parent id [] = ground arith
occurs-repeated x parent id (p ∷ ps) = ground (arith, occurs-repeated x parent id ps)

repeated-here :
    (x parent id : String) (ps : List String)
    → (id == x) ≡ true
    → occurs x (repeated parent id ps) ≡ occurs parent ps
repeated-here x parent id ps h = occurs-repeated x parent id ps ∙ rw h refl

repeated-elsewhere :
    (x parent id : String) (ps : List String)
    → (id == x) ≡ false
    → occurs x (repeated parent id ps) ≡ 0
repeated-elsewhere x parent id ps h = occurs-repeated x parent id ps ∙ rw h refl

pub absent-children :
    (x parent : String) (nodes : Nodes)
    → Indexed nodes
    → contains x (keys nodes) ≡ false
    → occurs x (children parent nodes) ≡ 0
absent-children x parent [] i h = refl
absent-children x parent ((k, e) ∷ rest) i h = ground (
  arith,
  occurs-append x (repeated parent e.event_id e.parent_ids) (children parent rest),
  occurs-repeated x parent e.event_id e.parent_ids,
  absent-children x parent rest i.2,
  i.0,
)

-- An event is a child of another as often as it names it.
pub occurs-children :
    (x parent : String) (nodes : Nodes) (e : EventNode)
    → Indexed nodes
    → lookup x nodes ≡ some e
    → occurs x (children parent nodes) ≡ occurs parent e.parent_ids
occurs-children x parent [] e i h = cc
occurs-children x parent ((k, n) ∷ rest) e i h = elim (Bool-cases (k == x)) [
  | inl same ↦
      let is_x = (eq_iff k x).0 same in
      let is_e : n ≡ e = cc (rw same at h) in
      omega (
        arith,
        occurs-append x (repeated parent n.event_id n.parent_ids) (children parent rest),
        repeated-here x parent n.event_id n.parent_ids ((eq_iff n.event_id x).1 (sym i.0 ∙ is_x)),
        absent-children x parent rest i.2 (subst (λ y. contains y (keys rest) ≡ false) is_x i.1),
        ap (λ (q : EventNode). occurs parent q.parent_ids) is_e,
      )
  | inr differ ↦ omega (
    arith,
    occurs-append x (repeated parent n.event_id n.parent_ids) (children parent rest),
    repeated-elsewhere x parent n.event_id n.parent_ids (subst (λ y. (y == x) ≡ false) i.0 differ),
    occurs-children x parent rest e i.2 (rw differ at h),
  )
]

-- What `_prepare` builds is indexed.
keys-insert_new :
    (x k : String) (e : EventNode) (nodes : Nodes)
    → contains x (keys (insert k e nodes)) ≡ (contains x (keys nodes) || k == x)
keys-insert_new x k e [] = ground arith
keys-insert_new x k e ((j, n) ∷ rest) =
    ground (arith, keys-insert_new x k e rest, eq_iff j k, eq_iff j x, eq_iff k x)

insert-Indexed :
    (e : EventNode) (nodes : Nodes)
    → Indexed nodes
    → has_key e.event_id nodes ≡ false
    → Indexed (insert e.event_id e nodes)
insert-Indexed e [] i h = (refl, refl, tt)
insert-Indexed e ((j, n) ∷ rest) i h = elim (Bool-cases (j == e.event_id)) [
  | inl same ↦ absurd (cc (rw same at h))
  | inr differ ↦ rw differ (
    i.0,
    keys-insert_new j e.event_id e rest
        ∙ ground (arith, i.1, eq_iff j e.event_id, eq_iff e.event_id j),
    insert-Indexed e rest i.2 (rw differ at h),
  )
]

index_events-Indexed :
    (nodes out : Nodes) (es : List EventNode)
    → Indexed nodes
    → index_events nodes es ≡ ok out
    → Indexed out
unfolding index_events
index_events-Indexed nodes out [] i h = subst Indexed (cc h) i
index_events-Indexed nodes out (e ∷ es) i h = elim (Bool-cases (has_key e.event_id nodes)) [
  | inl there ↦ absurd (cc (rw there at h))
  | inr new ↦
      index_events-Indexed (insert e.event_id e nodes) out es (insert-Indexed e nodes i new)
        (rw new at h)
]

pub prepare-index_events :
    (es : List EventNode) (nodes : Nodes) → prepare es ≡ ok nodes → index_events [] es ≡ ok nodes
unfolding prepare
prepare-index_events es nodes h =
    let (out, e, h1) = ok-of-bind (index_events [] es) _ h in
    let (_, same) = checked (parents_known out out) out nodes h1 in e ∙ ap ok same
  where
    checked :
        (c : Bool) (out nodes : Nodes)
        → (require c missing_parent >> ok out) ≡ ok nodes
        → (c ≡ true) × (out ≡ nodes)
    checked true out nodes h = (refl, cc h)
    checked false out nodes h = cc

length-insert_new :
    (k : String) (e : EventNode) (nodes : Nodes)
    → has_key k nodes ≡ false
    → length (insert k e nodes) ≡ suc (length nodes)
length-insert_new k e [] h = refl
length-insert_new k e ((j, n) ∷ rest) h = elim (Bool-cases (j == k)) [
  | inl same ↦ absurd (cc (rw same at h))
  | inr differ ↦ rw differ (ap suc (length-insert_new k e rest (rw differ at h)))
]

length-index_events :
    (nodes out : Nodes) (es : List EventNode)
    → index_events nodes es ≡ ok out
    → length out ≡ length nodes + length es
unfolding index_events
length-index_events nodes out [] h =
    let same : nodes ≡ out = cc h in
    subst (λ (x : Nodes). length x ≡ length nodes + 0) same (omega arith)
length-index_events nodes out (e ∷ es) h = elim (Bool-cases (has_key e.event_id nodes)) [
  | inl there ↦ absurd (cc (rw there at h))
  | inr new ↦ omega (
    arith,
    length-index_events (insert e.event_id e nodes) out es (rw new at h),
    length-insert_new e.event_id e nodes new,
  )
]

pub prepare-Indexed : (es : List EventNode) (nodes : Nodes) → prepare es ≡ ok nodes → Indexed nodes
prepare-Indexed es nodes h = index_events-Indexed [] nodes es tt (prepare-index_events es nodes h)

pub length-prepare :
    (es : List EventNode) (nodes : Nodes) → prepare es ≡ ok nodes → length nodes ≡ length es
length-prepare es nodes h =
    omega (arith, length-index_events [] nodes es (prepare-index_events es nodes h))

-- The events by their ids.
abbrev pub by_id : List EventNode → Nodes
by_id [] = []
by_id (e ∷ es) = (e.event_id, e) ∷ by_id es

index_events-by_id :
    (nodes out : Nodes) (es : List EventNode)
    → index_events nodes es ≡ ok out
    → out ≡ nodes ++ by_id es
unfolding index_events
index_events-by_id nodes out [] h = sym (cc h) ∙ sym (append-nil nodes)
index_events-by_id nodes out (e ∷ es) h = elim (Bool-cases (has_key e.event_id nodes)) [
  | inl there ↦ absurd (cc (rw there at h))
  | inr new ↦
      index_events-by_id (insert e.event_id e nodes) out es (rw new at h)
      ∙ ap (λ x. x ++ by_id es)
          (insert-new e.event_id e nodes (no_key (lookup e.event_id nodes) new))
      ∙ append_assoc nodes ((e.event_id, e) ∷ []) (by_id es)
]
  where
    no_key : (o : Option EventNode) → is_some o ≡ false → o ≡ none
    no_key none h = refl
    no_key (some e) h = cc

pub prepare-by_id : (es : List EventNode) (nodes : Nodes) → prepare es ≡ ok nodes → nodes ≡ by_id es
prepare-by_id es nodes h = index_events-by_id [] nodes es (prepare-index_events es nodes h)
