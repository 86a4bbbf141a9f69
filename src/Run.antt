-- ===== src/Run.antt =====
-- Results of the code that may also panic: `panic` is the panic, `err` an `Err`, `ok` an `Ok`.
use wrapper.Common.{◌≡◌, refl, ◌⊎◌, inl, inr}

pub data Run {ℓ κ} (E : Type ℓ) (A : Type κ) : Type (ℓ ⊔ κ) where
  panic : Run E A
  err : E → Run E A
  ok : A → Run E A

infixl 5 ◌>>=◌
abbrev pub ◌>>=◌ {ℓ κ μ} :
    {E : Type ℓ} {A : Type κ} {B : Type μ} → Run E A → (A → Run E B) → Run E B
panic >>= f = panic
err e >>= f = err e
ok a >>= f = f a

pub Run-cases {ℓ κ} :
    {E : Type ℓ} {A : Type κ} (r : Run E A)
    → (r ≡ panic) ⊎ (((e : E) × (r ≡ err e)) ⊎ ((a : A) × (r ≡ ok a)))
Run-cases panic = inl refl
Run-cases (err e) = inr (inl (e, refl))
Run-cases (ok a) = inr (inr (a, refl))
