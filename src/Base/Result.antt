-- ===== src/Base/Result.antt =====
-- Calls that return a value or raise an exception.
use mathlib.Core.Path.{◌≡◌, refl}

pub data Error : Type 0 where
  value_error zero_division_error integrity_error overflow_error attribute_error type_error : Error

pub data Result {ℓ} (A : Type ℓ) : Type ℓ where
  err : (raised : Error) → Result A
  ok : (returned : A) → Result A

-- The rest of a `do` block is not run after an exception.
infixl 5 ◌>>=◌
abbrev pub ◌>>=◌ {ℓ κ} : {A : Type ℓ} {B : Type κ} → Result A → (A → Result B) → Result B
err e >>= f = err e
ok a >>= f = f a

-- What holds of the value, if there is one.
abbrev pub Ensures {ℓ κ} : {A : Type ℓ} → (A → Type κ) → Result A → Type κ
Ensures P (ok a) = P a
Ensures P (err e) = Unit

pub Ensures->>= {ℓ κ μ} :
    {A : Type ℓ} {B : Type κ} (P : B → Type μ) (m : Result A) (f : A → Result B)
    → ((a : A) → m ≡ ok a → Ensures P (f a))
    → Ensures P (m >>= f)
Ensures->>= P (ok a) f h = h a refl
Ensures->>= P (err e) f h = tt

pub Result-cases {ℓ} :
    {A : Type ℓ} (P : Result A → Type 0) (r : Result A)
    → ((a : A) → r ≡ ok a → P (ok a))
    → ((e : Error) → r ≡ err e → P (err e))
    → P r
Result-cases P (ok a) f g = f a refl
Result-cases P (err e) f g = g e refl
