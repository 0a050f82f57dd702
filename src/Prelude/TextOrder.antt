-- ===== src/Prelude/TextOrder.antt =====
-- The order of texts by code points is total.
use Prim.Native.Nat.compare as compare_ℕ
use Prim.Native.Nat.{ℕ, zero, suc, Ordering, compare as compare_ℕ}
use Prim.Native.Char.{code}
use Prim.Native.String.compare
use Prim.Native.String.{String, compare, then}
use mathlib.Core.Path.{◌≡◌, refl, sym, ap, ◌∙◌}
use mathlib.Core.Bool.{Bool, true, false}
use jamp.Prelude.Sort.{leb_text}

abbrev swap : Ordering → Ordering
swap Ordering.lt = Ordering.gt
swap Ordering.eq = Ordering.eq
swap Ordering.gt = Ordering.lt

swap_numbers : (m n : ℕ) → compare_ℕ n m ≡ swap (compare_ℕ m n)
swap_numbers zero zero = compare_ℕ.zero-zero ∙ ap swap (sym compare_ℕ.zero-zero)
swap_numbers zero (suc n) = compare_ℕ.suc-zero n ∙ ap swap (sym (compare_ℕ.zero-suc n))
swap_numbers (suc m) zero = compare_ℕ.zero-suc m ∙ ap swap (sym (compare_ℕ.suc-zero m))
swap_numbers (suc m) (suc n) =
    compare_ℕ.suc-suc n m ∙ swap_numbers m n ∙ ap swap (sym (compare_ℕ.suc-suc m n))

swap-then : (o r : Ordering) → then (swap o) (swap r) ≡ swap (then o r)
swap-then Ordering.lt r = refl
swap-then Ordering.eq r = refl
swap-then Ordering.gt r = refl

swap_texts : (s t : String) → compare t s ≡ swap (compare s t)
swap_texts String.[] String.[] = refl
swap_texts String.[] (String.◌∷◌ d t) = compare.cons-nil d t ∙ ap swap (sym (compare.nil-cons d t))
swap_texts (String.◌∷◌ c s) String.[] = compare.nil-cons c s ∙ ap swap (sym (compare.cons-nil c s))
swap_texts (String.◌∷◌ c s) (String.◌∷◌ d t) =
    compare.cons-cons d c t s
    ∙ ap (λ o. then o (compare t s)) (swap_numbers (code c) (code d))
    ∙ ap (then (swap (compare_ℕ (code c) (code d)))) (swap_texts s t)
    ∙ swap-then (compare_ℕ (code c) (code d)) (compare s t)
    ∙ ap swap (sym (compare.cons-cons c d s t))

abbrev not_after : Ordering → Bool
not_after Ordering.gt = false
not_after _ = true

other_way : (o : Ordering) → not_after o ≡ false → not_after (swap o) ≡ true
other_way Ordering.lt h = absurd (cc h)
other_way Ordering.eq h = refl
other_way Ordering.gt h = refl

pub leb_text_total : (s t : String) → leb_text s t ≡ false → leb_text t s ≡ true
leb_text_total s t h = ap not_after (swap_texts s t) ∙ other_way (compare s t) h
