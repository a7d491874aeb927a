-- ===== src/Base/Results.antt =====
-- A Go result `(T, error)` whose value is meaningless beside an error.
use mathlib.Core.Path.{◌≡◌, refl}
use mathlib.Core.Option.{Option, some}

pub data Result {ℓ} (E : Type 0) (A : Type ℓ) : Type ℓ where
  ok : A → Result E A
  err : E → Result E A

infixl 10 ◌>>=◌
abbrev pub ◌>>=◌ {ℓ κ} :
    {E : Type 0} {A : Type ℓ} {B : Type κ} → Result E A → (A → Result E B) → Result E B
ok a >>= f = f a
err e >>= f = err e

-- A successful chain of two steps, taken apart.
pub >>=-eq-ok {ℓ κ} :
    {E : Type 0} {A : Type ℓ} {B : Type κ}
    → (first : Result E A) (next : A → Result E B) {last : B} → (first >>= next) ≡ ok last
    → (middle : A) × (first ≡ ok middle) × (next middle ≡ ok last)
>>=-eq-ok (err e) next done = cc
>>=-eq-ok (ok middle) next done = (middle, refl, done)

abbrev pub IsSome {ℓ} : {A : Type ℓ} → Option A → Type ℓ
IsSome {A = A} o = (a : A) × (o ≡ some a)
