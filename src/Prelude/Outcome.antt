-- ===== src/Prelude/Outcome.antt =====
-- What a call of the program comes to. `fault` is what the language leaves undefined, such as a
-- read through `end()`; `out_of_fuel` is a model's own end of a recursion that has not returned.
use mathlib.Core.Path.{◌≡◌, refl}
use mathlib.Core.Option.{Option, none, some}

pub data Outcome {ℓ} (A : Type ℓ) : Type ℓ where
  ok : A → Outcome A
  thrown : Outcome A
  fault : Outcome A
  out_of_fuel : Outcome A

infixl 5 ◌>>=◌
abbrev pub ◌>>=◌ {ℓ κ} : {A : Type ℓ} {B : Type κ} → Outcome A → (A → Outcome B) → Outcome B
ok a >>= f = f a
thrown >>= f = thrown
fault >>= f = fault
out_of_fuel >>= f = out_of_fuel

-- A call that throws where it has no value.
abbrev pub or_throw {ℓ} : {A : Type ℓ} → Option A → Outcome A
or_throw none = thrown
or_throw (some a) = ok a

abbrev pub or_fault {ℓ} : {A : Type ℓ} → Option A → Outcome A
or_fault none = fault
or_fault (some a) = ok a

-- A call that returns a value.
abbrev pub Gives {ℓ} : {A : Type ℓ} → Outcome A → A → Type ℓ
Gives call a = call ≡ ok a

-- Where a chain returns, so does each of its calls.
pub >>=-eq-ok {ℓ κ} :
    {A : Type ℓ} {B : Type κ} (first : Outcome A) (next : A → Outcome B) {b : B}
    → Gives (first >>= next) b
    → (a : A) × Gives first a × Gives (next a) b
>>=-eq-ok thrown next returned = cc
>>=-eq-ok fault next returned = cc
>>=-eq-ok out_of_fuel next returned = cc
>>=-eq-ok (ok a) next returned = (a, refl, returned)

pub or_throw-eq-ok {ℓ} : {A : Type ℓ} (o : Option A) {a : A} → or_throw o ≡ ok a → o ≡ some a
or_throw-eq-ok none h = cc
or_throw-eq-ok (some a) h = cc

pub or_fault-eq-ok {ℓ} : {A : Type ℓ} (o : Option A) {a : A} → or_fault o ≡ ok a → o ≡ some a
or_fault-eq-ok none h = cc
or_fault-eq-ok (some a) h = cc
