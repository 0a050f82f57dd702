-- ===== src/Causal/Count.antt =====
-- Occurrences in lists of event ids, and the counts that the causal sort keeps.
use jamp.Prelude.{
  ℕ, suc, ◌+◌, String, ◌≡◌, refl, Bool, false, ◌||◌, List, [], ◌∷◌, ◌++◌, length, ◌==◌,
  if◌then◌else◌, arith, eq_iff, inl, inr, Bool-cases, ap, ◌∙◌,
}
use jamp.Prelude.Dict.{contains}
use jamp.Prelude.Sort.{insert_sorted, sort}
use jamp.Causal.Order.{Entry, leb_entry}

-- How often an id stands in a list.
abbrev pub occurs : String → List String → ℕ
occurs x [] = 0
occurs x (y ∷ ys) = if y == x then suc (occurs x ys) else occurs x ys

-- How many of the parents are not done.
abbrev pub open_count : List String → List String → ℕ
open_count [] done = 0
open_count (p ∷ ps) done = if contains p done then open_count ps done else suc (open_count ps done)

abbrev pub ids : List Entry → List String
ids [] = []
ids ((g, x) ∷ rest) = x ∷ ids rest

pub occurs-append :
    (x : String) (xs ys : List String) → occurs x (xs ++ ys) ≡ occurs x xs + occurs x ys
occurs-append x [] ys = omega arith
occurs-append x (y ∷ xs) ys = ground (arith, occurs-append x xs ys)

module _ (leb : String → String → Bool) where
  occurs-insert_sorted :
      (x y : String) (ys : List String) → occurs x (insert_sorted leb y ys) ≡ occurs x (y ∷ ys)
  unfolding insert_sorted
  occurs-insert_sorted x y [] = refl
  occurs-insert_sorted x y (z ∷ zs) = elim (Bool-cases (leb y z)) [
    | inl before ↦ rw before refl
    | inr behind ↦ rw (behind, occurs-insert_sorted x y zs) (ground arith)
  ]

  pub occurs-sort : (x : String) (xs : List String) → occurs x (sort leb xs) ≡ occurs x xs
  unfolding sort
  occurs-sort x [] = refl
  occurs-sort x (y ∷ ys) = occurs-insert_sorted x y (sort leb ys) ∙ rw (occurs-sort x ys) refl

pub occurs-push :
    (x : String) (e : Entry) (r : List Entry)
    → occurs x (ids (insert_sorted leb_entry e r)) ≡ occurs x (e.1 ∷ ids r)
unfolding insert_sorted
occurs-push x e [] = refl
occurs-push x e (z ∷ zs) = elim (Bool-cases (leb_entry e z)) [
  | inl before ↦ rw before refl
  | inr behind ↦ rw (behind, occurs-push x e zs) (ground arith)
]

pub occurs-heap :
    (x : String) (r : List Entry) → occurs x (ids (sort leb_entry r)) ≡ occurs x (ids r)
unfolding sort
occurs-heap x [] = refl
occurs-heap x (e ∷ r) = occurs-push x e (sort leb_entry r) ∙ rw (occurs-heap x r) refl

contains-last :
    (p id : String) (done : List String)
    → contains p (done ++ id ∷ []) ≡ (contains p done || id == p)
contains-last p id [] = ground arith
contains-last p id (y ∷ ys) = ground (arith, contains-last p id ys)

pub absent-contains : (x : String) (xs : List String) → occurs x xs ≡ 0 → contains x xs ≡ false
absent-contains x [] h = refl
absent-contains x (y ∷ ys) h = ground (arith, absent-contains x ys)

-- Once an id is done that was not, it no longer holds back the events that name it.
pub open_count-done :
    (id : String) (done ps : List String)
    → contains id done ≡ false
    → open_count ps done ≡ open_count ps (done ++ id ∷ []) + occurs id ps
open_count-done id done [] h = refl
open_count-done id done (p ∷ ps) h =
    ground (arith, open_count-done id done ps h, contains-last p id done, eq_iff p id, eq_iff id p)

pub open_count-new : (ps : List String) → open_count ps [] ≡ length ps
open_count-new [] = refl
open_count-new (p ∷ ps) = ap suc (open_count-new ps)
