-- ===== src/Common/Result.antt =====
-- What a Go call does: it returns, it panics (an index out of range, a division by zero), or the
-- rounds that the model grants its loops are used up.
use mathlib.Core.Path.{◌≡◌, refl, subst}

pub data Outcome {ℓ} (A : Type ℓ) : Type ℓ where
  ok : A → Outcome A
  panic : Outcome A
  out_of_fuel : Outcome A

infixl 5 ◌>>=◌
abbrev pub ◌>>=◌ {ℓ κ} : {A : Type ℓ} {B : Type κ} → Outcome A → (A → Outcome B) → Outcome B
ok a >>= f = f a
panic >>= f = panic
out_of_fuel >>= f = out_of_fuel

-- A property of what a call returns, if it returns.
abbrev pub IfOk {ℓ κ} : {A : Type ℓ} → (A → Type κ) → Outcome A → Type κ
IfOk P (ok a) = P a
IfOk P panic = Unit
IfOk P out_of_fuel = Unit

pub IfOk->>= {ℓ κ μ} :
    {A : Type ℓ} {B : Type κ} (P : B → Type μ) (m : Outcome A) (f : A → Outcome B)
    → ((a : A) → m ≡ ok a → IfOk P (f a))
    → IfOk P (m >>= f)
IfOk->>= P (ok a) f h = h a refl
IfOk->>= P panic f h = tt
IfOk->>= P out_of_fuel f h = tt

pub IfOk-ok {ℓ κ} :
    {A : Type ℓ} (P : A → Type κ) (m : Outcome A) {a : A} → m ≡ ok a → IfOk P m → P a
IfOk-ok P m e h = subst (IfOk P) e h
