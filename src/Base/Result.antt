-- ===== src/Base/Result.antt =====
-- Go's `(value, error)` results. An error is a value of the component's own error type.
use mathlib.Core.Path.{◌≡◌, refl}
use mathlib.Core.Option.{Option, none, some}
use mathlib.Core.Bool.{Bool, true, false}

pub data Result {ℓ κ} (E : Type ℓ) (V : Type κ) : Type (ℓ ⊔ κ) where
  err : E → Result E V
  ok : V → Result E V

infixl 5 ◌>>=◌
abbrev pub ◌>>=◌ {ℓ κ μ} :
    {E : Type ℓ} {V : Type κ} {W : Type μ} → Result E V → (V → Result E W) → Result E W
err failure >>= next = err failure
ok value >>= next = next value

-- Go on where a check succeeds.
infixl 5 ◌>>◌
abbrev pub ◌>>◌ {ℓ κ} : {E : Type ℓ} {W : Type κ} → Result E (Unit {0}) → Result E W → Result E W
check >> next = check >>= λ _. next

-- `if test { return error }`
abbrev pub fail_if {ℓ} : {E : Type ℓ} → Bool → E → Result E (Unit {0})
fail_if true e = err e
fail_if false e = ok tt

-- A missing value is the error.
abbrev pub with_error {ℓ κ} : {E : Type ℓ} {A : Type κ} → E → Option A → Result E A
with_error e none = err e
with_error e (some a) = ok a

-- The result under a function of its value.
abbrev pub result_map {ℓ κ μ} :
    {E : Type ℓ} {A : Type κ} {B : Type μ} → (A → B) → Result E A → Result E B
result_map f (ok a) = ok (f a)
result_map f (err e) = err e

pub with_error-eq-ok {ℓ κ} :
    {E : Type ℓ} {A : Type κ} (e : E) (o : Option A) {a : A} → with_error e o ≡ ok a → o ≡ some a
with_error-eq-ok e none h = cc
with_error-eq-ok e (some a) h = cc

-- Inversion of a successful chain.
pub >>=-eq-ok {ℓ κ μ} :
    {E : Type ℓ} {V : Type κ} {W : Type μ} (first : Result E V) (next : V → Result E W) {result : W}
    → (first >>= next) ≡ ok result
    → (value : V) × (first ≡ ok value) × (next value ≡ ok result)
>>=-eq-ok (err failure) next h = cc
>>=-eq-ok (ok value) next h = (value, refl, h)

pub fail_if-eq-ok {ℓ} :
    {E : Type ℓ} (test : Bool) (e : E) {u : Unit {0}} → fail_if test e ≡ ok u → test ≡ false
fail_if-eq-ok true e h = cc
fail_if-eq-ok false e h = refl

pub fail_if-passes {ℓ} : {E : Type ℓ} {test : Bool} (e : E) → test ≡ false → fail_if test e ≡ ok tt
fail_if-passes {test = true} e h = cc
fail_if-passes {test = false} e h = refl
