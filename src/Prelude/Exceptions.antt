-- ===== src/Prelude/Exceptions.antt =====
-- Calls that return a value or raise.
use mathlib.Core.Path.{◌≡◌, refl}
use mathlib.Core.Logic.{◌⊎◌, inl, inr}
use mathlib.Core.Bool.{Bool, true, false}

pub data Except {ℓ κ} (E : Type ℓ) (A : Type κ) : Type (ℓ ⊔ κ) where
  ok : A → Except E A
  err : E → Except E A

infixl 5 ◌>>=◌ ◌>>◌
abbrev pub ◌>>=◌ {ℓ κ μ} :
    {E : Type ℓ} {A : Type κ} {B : Type μ} → Except E A → (A → Except E B) → Except E B
ok a >>= f = f a
err e >>= f = err e

abbrev pub ◌>>◌ {ℓ κ} : {E : Type ℓ} {B : Type κ} → Except E (Unit {0}) → Except E B → Except E B
m >> k = m >>= λ _. k

-- `if not c: raise e`
abbrev pub require {ℓ} : {E : Type ℓ} → Bool → E → Except E (Unit {0})
require true e = ok tt
require false e = err e

-- `if c: raise e`
abbrev pub refuse_if {ℓ} : {E : Type ℓ} → Bool → E → Except E (Unit {0})
refuse_if true e = err e
refuse_if false e = ok tt

pub Except-cases {ℓ κ} :
    {E : Type ℓ} {A : Type κ} (m : Except E A) → ((a : A) × (m ≡ ok a)) ⊎ ((e : E) × (m ≡ err e))
Except-cases (ok a) = inl (a, refl)
Except-cases (err e) = inr (e, refl)

-- A value that is returned through a last step of its own.
pub ok-of-bind {ℓ κ μ} :
    {E : Type ℓ} {A : Type κ} {B : Type μ} (m : Except E A) (f : A → Except E B) {b : B}
    → (m >>= f) ≡ ok b
    → (a : A) × (m ≡ ok a) × (f a ≡ ok b)
ok-of-bind (ok a) f h = (a, refl, h)
ok-of-bind (err e) f h = cc

-- The same where a guard stands before.
pub guarded-of-bind {ℓ κ μ} :
    {E : Type ℓ} {A : Type κ} {B : Type μ} (c : Bool) (r : E) (m : Except E A) (f : A → Except E B)
    {b : B}
    → (require c r >> m >>= f) ≡ ok b
    → (c ≡ true) × ((a : A) × (m ≡ ok a) × (f a ≡ ok b))
guarded-of-bind true r m f h = (refl, ok-of-bind m f h)
guarded-of-bind false r m f h = cc

-- A call before the one whose value is used.
pub after-of-bind {ℓ κ μ} :
    {E : Type ℓ} {A : Type κ} {B : Type μ} (a : Except E (Unit {0})) (m : Except E A)
    (f : A → Except E B) {b : B}
    → (a >> m >>= f) ≡ ok b
    → (x : A) × (m ≡ ok x) × (f x ≡ ok b)
after-of-bind (ok u) m f h = ok-of-bind m f h
after-of-bind (err e) m f h = cc

pub guard-of-then {ℓ κ} :
    {E : Type ℓ} {B : Type κ} (c : Bool) (r : E) (m : Except E (Unit {0})) (k : Except E B) {b : B}
    → (require c r >> m >> k) ≡ ok b
    → (c ≡ true) × (k ≡ ok b)
guard-of-then true r (ok u) k h = (refl, h)
guard-of-then true r (err e) k h = cc
guard-of-then false r m k h = cc
