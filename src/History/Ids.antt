-- ===== src/History/Ids.antt =====
-- The event ids of src/jamp/events/dag.py: `f"EVT_{len(self.nodes):04d}"`.
use Prim.Native.Nat.{◌/◌, ◌%◌}
use Prim.Native.Char.{Char, char, code}
use Prim.Native.String.{String, [], ◌∷◌, count}
use jamp.Prelude.{
  ℕ, zero, suc, ◌+◌, ◌-◌, ◌*◌, ◌<◌, ◌≡◌, refl, Bool, true, false, ◌==◌, nat_beq, ltb, arith, ap,
  sym, ◌∙◌, inl, inr, Bool-cases, eq_iff,
}

-- A decimal digit.
abbrev pub digit : ℕ → Char
digit zero = char b'0' tt
digit (suc zero) = char b'1' tt
digit (suc (suc zero)) = char b'2' tt
digit (suc (suc (suc zero))) = char b'3' tt
digit (suc (suc (suc (suc zero)))) = char b'4' tt
digit (suc (suc (suc (suc (suc zero))))) = char b'5' tt
digit (suc (suc (suc (suc (suc (suc zero)))))) = char b'6' tt
digit (suc (suc (suc (suc (suc (suc (suc zero))))))) = char b'7' tt
digit (suc (suc (suc (suc (suc (suc (suc (suc zero)))))))) = char b'8' tt
digit n = char b'9' tt

-- The decimal digits of a number before a text; the first argument is fuel, and `n + 1` is enough.
unfoldable pub decimal : ℕ → ℕ → String → String
decimal zero n s = s
decimal (suc fuel) n s = elim (ltb n 10) [
  | true ↦ digit n ∷ s
  | false ↦ decimal fuel (n / 10) (digit (n % 10) ∷ s)
]

unfoldable pub zeros : ℕ → String → String
zeros zero s = s
zeros (suc n) s = digit 0 ∷ zeros n s

-- `f"EVT_{n:04d}"`
unfoldable pub event_id : ℕ → String
unfolding decimal zeros
event_id n =
    let digits = decimal (suc n) n "" in
    char b'E' tt ∷ char b'V' tt ∷ char b'T' tt ∷ char b'_' tt ∷ zeros (4 - count digits) digits

test_7 : event_id 7 ≡ "EVT_0007"
unfolding event_id decimal zeros
test_7 = refl

test_20418 : event_id 20418 ≡ "EVT_20418"
unfolding event_id decimal zeros
test_20418 = refl

-- The number that the digits of a text spell behind `n`.
read : ℕ → String → ℕ
read n [] = n
read n (c ∷ s) = read (n * 10 + (code c - b'0')) s

code-digit : (n : ℕ) → n < 10 → code (digit n) ≡ n + b'0'
code-digit zero h = refl
code-digit (suc zero) h = refl
code-digit (suc (suc zero)) h = refl
code-digit (suc (suc (suc zero))) h = refl
code-digit (suc (suc (suc (suc zero)))) h = refl
code-digit (suc (suc (suc (suc (suc zero))))) h = refl
code-digit (suc (suc (suc (suc (suc (suc zero)))))) h = refl
code-digit (suc (suc (suc (suc (suc (suc (suc zero))))))) h = refl
code-digit (suc (suc (suc (suc (suc (suc (suc (suc zero)))))))) h = refl
code-digit (suc (suc (suc (suc (suc (suc (suc (suc (suc zero))))))))) h = refl
code-digit (suc (suc (suc (suc (suc (suc (suc (suc (suc (suc n)))))))))) h =
    absurd (omega (arith, h))

read-digit : (m n : ℕ) (s : String) → n < 10 → read m (digit n ∷ s) ≡ read (m * 10 + n) s
unfolding read
read-digit m n s h = ap (λ d. read d s) (omega (arith, code-digit n h))

decimal-small : (fuel n : ℕ) (s : String) → ltb n 10 ≡ true → decimal (suc fuel) n s ≡ digit n ∷ s
unfolding decimal
decimal-small fuel n s h = ground (arith, h)

decimal-large :
    (fuel n : ℕ) (s : String)
    → ltb n 10 ≡ false
    → decimal (suc fuel) n s ≡ decimal fuel (n / 10) (digit (n % 10) ∷ s)
unfolding decimal
decimal-large fuel n s h = ground (arith, h)

read-decimal : (fuel n : ℕ) (s : String) → n < fuel → read 0 (decimal fuel n s) ≡ read n s
read-decimal zero n s h = absurd (omega (arith, h))
read-decimal (suc fuel) n s h = elim (Bool-cases (ltb n 10)) [
  | inl small ↦
      rw (decimal-small fuel n s small)
        (read-digit 0 n s (ground (arith, small)) ∙ ap (λ m. read m s) (omega arith))
  | inr large ↦ rw (decimal-large fuel n s large) (
      read-decimal fuel (n / 10) (digit (n % 10) ∷ s) (ground (arith, h, large))
      ∙ read-digit (n / 10) (n % 10) s (omega arith)
      ∙ ap (λ m. read m s) (omega arith))
]

read-zeros : (n : ℕ) (s : String) → read 0 (zeros n s) ≡ read 0 s
unfolding zeros read
read-zeros zero s = refl
read-zeros (suc n) s = read-zeros n s

-- The number in an event id.
number : String → ℕ
number (a ∷ b ∷ c ∷ d ∷ s) = read 0 s
number s = 0

number-event_id : (n : ℕ) → number (event_id n) ≡ n
unfolding number event_id read
number-event_id n =
    let digits = decimal (suc n) n "" in
    read-zeros (4 - count digits) digits ∙ read-decimal (suc n) n "" (omega arith)

-- Two numbers have two ids.
pub event_id-injective : (m n : ℕ) → event_id m ≡ event_id n → m ≡ n
event_id-injective m n h = sym (number-event_id m) ∙ ap number h ∙ number-event_id n

starts_with_e : String → Bool
starts_with_e [] = false
starts_with_e (c ∷ s) = nat_beq (code c) b'E'

true_ne_false : true ≡ false → ⊥
true_ne_false h = cc

pub event_id-ne-genesis : (n : ℕ) → (event_id n == "GENESIS") ≡ false
unfolding event_id starts_with_e
event_id-ne-genesis n = elim (Bool-cases (event_id n == "GENESIS")) [
  | inl same ↦ absurd (true_ne_false (ap starts_with_e ((eq_iff (event_id n) "GENESIS").0 same)))
  | inr differ ↦ differ
]
