-- ===== src/Base/Results.antt =====
-- Go's (value, error) pair as a sum, with `do` blocks for chains of early returns.
use mathlib.Core.Path.{◌≡◌, refl, ap}
use mathlib.Core.Bool.{Bool, true, false}
use mathlib.Core.Logic.{◌⊎◌, inl, inr}
use native.Mathlib.Omega.{arith}
use vrcft_go.Base.Tests.{if◌then◌else◌}

pub data Result {ℓ κ} (E : Type ℓ) (A : Type κ) : Type (ℓ ⊔ κ) where
  ok : A → Result E A
  err : E → Result E A

infixl 5 ◌>>=◌ ◌>>◌
abbrev pub ◌>>=◌ {ℓ κ μ} :
    {E : Type ℓ} {A : Type κ} {B : Type μ} → Result E A → (A → Result E B) → Result E B
ok a >>= f = f a
err e >>= f = err e

abbrev pub ◌>>◌ {ℓ κ} : {E : Type ℓ} {B : Type κ} → Result E (Unit {0}) → Result E B → Result E B
m >> k = m >>= λ _. k

-- `if bad { return e }`.
abbrev pub fail_if {ℓ} : {E : Type ℓ} → Bool → E → Result E (Unit {0})
fail_if true e = err e
fail_if false e = ok tt

pub Result-cases {ℓ κ} :
    {E : Type ℓ} {A : Type κ} (r : Result E A) → ((a : A) × (r ≡ ok a)) ⊎ ((e : E) × (r ≡ err e))
Result-cases (ok a) = inl (a, refl)
Result-cases (err e) = inr (e, refl)

-- A chain that gives a result has one from its first link.
pub >>=_inv {ℓ κ μ} :
    {E : Type ℓ} {A : Type κ} {B : Type μ} (r : Result E A) (f : A → Result E B) (b : B)
    → r >>= f ≡ ok b
    → (a : A) × (r ≡ ok a) × (f a ≡ ok b)
>>=_inv (ok a) f b h = (a, refl, h)
>>=_inv (err e) f b h = ground arith

ok_or {ℓ κ} : {E : Type ℓ} {A : Type κ} → A → Result E A → A
ok_or d (ok a) = a
ok_or d (err e) = d

pub ok_inj {ℓ κ} : {E : Type ℓ} {A : Type κ} (a b : A) → Path (Result E A) (ok a) (ok b) → a ≡ b
unfolding ok_or
ok_inj a b h = ap (ok_or a) h

-- A result behind a guard.
pub guard_inv {ℓ κ} :
    {E : Type ℓ} {A : Type κ} (b : Bool) (e : E) (r : Result E A) (a : A)
    → Path (Result E A) (if b then err e else r) (ok a)
    → (b ≡ false) × (r ≡ ok a)
guard_inv true e r a h = ground arith
guard_inv false e r a h = (refl, h)

pub fail_if_inv {ℓ κ} :
    {E : Type ℓ} {A : Type κ} (b : Bool) (e : E) (r : Result E A) (a : A)
    → fail_if b e >> r ≡ ok a
    → (b ≡ false) × (r ≡ ok a)
fail_if_inv true e r a h = ground arith
fail_if_inv false e r a h = (refl, h)

-- Two steps of which the first is a check.
pub >>_inv {ℓ κ} :
    {E : Type ℓ} {A : Type κ} (r : Result E (Unit {0})) (s : Result E A) (a : A)
    → r >> s ≡ ok a
    → (r ≡ ok tt) × (s ≡ ok a)
>>_inv (ok tt) s a h = (refl, h)
>>_inv (err e) s a h = ground arith
