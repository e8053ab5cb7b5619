-- ===== src/Prelude/Fallible.antt =====
-- Code that may throw: a value, or the error that is thrown.
use mathlib.Core.Bool.{Bool, true, false}
use mathlib.Core.Option.{Option, none, some}
use mathlib.Core.Logic.{◌⊎◌, inl, inr}
use mathlib.Core.Path.{◌≡◌, refl}
use Prim.Native.String.{String}

pub data Result {ℓ κ} (E : Type ℓ) (A : Type κ) : Type (ℓ ⊔ κ) where
  ok : A → Result E A
  err : E → Result E A

infixl 5 ◌>>=◌ ◌>>◌
abbrev pub ◌>>=◌ {ℓ κ μ} :
    {E : Type ℓ} {A : Type κ} {B : Type μ} → Result E A → (A → Result E B) → Result E B
ok a >>= f = f a
err e >>= f = err e

abbrev pub ◌>>◌ {ℓ κ} : {E : Type ℓ} {B : Type κ} → Result E (Unit {0}) → Result E B → Result E B
m >> k = m >>= λ _. k

-- util/assert.ts: `invariant(condition, message)` throws an AssertionError with the message.
abbrev pub invariant {ℓ} : {E : Type ℓ} → Bool → E → Result E (Unit {0})
invariant true message = ok tt
invariant false message = err message

-- The value, with the error forgotten.
abbrev pub accepted {ℓ κ} : {E : Type ℓ} {A : Type κ} → Result E A → Option A
accepted (ok a) = some a
accepted (err e) = none

-- What the model of a loop may give beside a value: the message of an invariant, or that its fuel has
-- run out.
pub data Failure : Type 0 where
  assertion : String → Failure
  out_of_fuel : Failure

-- What a chain that gives a value has passed through.
pub chain_passes {ℓ κ μ} :
    {E : Type ℓ} {A : Type κ} {B : Type μ} (start : Result E A) (rest : A → Result E B) {last : B}
    → (start >>= rest) ≡ ok last
    → (between : A) × (start ≡ ok between) × (rest between ≡ ok last)
chain_passes (ok between) rest passed = (between, refl, passed)
chain_passes (err message) rest passed = cc

pub Result-cases {ℓ κ} :
    {E : Type ℓ} {A : Type κ} (o : Result E A) → ((a : A) × (o ≡ ok a)) ⊎ ((e : E) × (o ≡ err e))
Result-cases (ok a) = inl (a, refl)
Result-cases (err e) = inr (e, refl)
