-- ===== src/Prelude/Results.antt =====
-- What C++ code of nachos-csci402/code can do besides returning: faults, as values.
use mathlib.Core.Path.{◌≡◌, refl}
use mathlib.Core.Logic.{◌⊎◌, inl, inr}
use mathlib.Core.Bool.{Bool, true, false}

-- `out_of_range`: `vector::at` throws. `dangling`: a deleted object is read. `null`: a null pointer
-- is followed. `overrun`: an array is accessed outside its bounds. `overflow`: an `int` overflows, which is undefined. `assertion`: an `ASSERT` fails.
-- `halted`: `interrupt->Halt()`.
pub data Fault : Type 0 where
  out_of_range dangling null overrun overflow assertion halted : Fault

pub data Result {ℓ} (A : Type ℓ) : Type ℓ where
  ok : A → Result A
  fault : Fault → Result A

infixl 5 ◌>>=◌ ◌>>◌
abbrev pub ◌>>=◌ {ℓ κ} : {A : Type ℓ} {B : Type κ} → Result A → (A → Result B) → Result B
ok a >>= f = f a
fault e >>= f = fault e

abbrev pub ◌>>◌ {ℓ} : {B : Type ℓ} → Result (Unit {0}) → Result B → Result B
m >> k = m >>= λ _. k

-- `ASSERT(b)` and the other checks that stop the program.
abbrev pub check : Bool → Fault → Result (Unit {0})
check true e = ok tt
check false e = fault e

-- What holds of a result, if there is one.
abbrev pub Holds {ℓ κ} : {A : Type ℓ} → (A → Type κ) → Result A → Type κ
Holds P (ok a) = P a
Holds P (fault e) = Unit

-- There is a result, and it has the property.
abbrev pub Returns {ℓ} : {A : Type ℓ} → (A → Type 0) → Result A → Type 0
Returns P (ok a) = P a
Returns P (fault e) = ⊥

pub Result-cases {ℓ} :
    {A : Type ℓ} (r : Result A) → ((a : A) × (r ≡ ok a)) ⊎ ((e : Fault) × (r ≡ fault e))
Result-cases (ok a) = inl (a, refl)
Result-cases (fault e) = inr (e, refl)

pub Holds-implies {ℓ κ μ} :
    {A : Type ℓ} {P : A → Type κ} {Q : A → Type μ} (r : Result A)
    → ((a : A) → P a → Q a)
    → Holds P r
    → Holds Q r
Holds-implies (ok a) f h = f a h
Holds-implies (fault e) f h = tt

-- A property of what a chain returns, from each value of its first step.
pub Holds-each {ℓ κ μ} :
    {A : Type ℓ} {B : Type κ} (P : B → Type μ) (r : Result A) (f : A → Result B)
    → ((a : A) → r ≡ ok a → Holds P (f a))
    → Holds P (r >>= f)
Holds-each P (ok a) f k = k a refl
Holds-each P (fault e) f k = tt

pub Holds-bind {ℓ κ μ} :
    {A : Type ℓ} {B : Type κ} (P : B → Type μ) (Q : A → Type μ) (r : Result A) (f : A → Result B)
    → Holds Q r
    → ((a : A) → Q a → Holds P (f a))
    → Holds P (r >>= f)
Holds-bind P Q (ok a) f h k = k a h
Holds-bind P Q (fault e) f h k = tt

pub Returns-implies {ℓ} :
    {A : Type ℓ} {P Q : A → Type 0} (r : Result A)
    → ((a : A) → P a → Q a)
    → Returns P r
    → Returns Q r
Returns-implies (ok a) f h = f a h
Returns-implies (fault e) f h = h

pub Returns-bind {ℓ κ} :
    {A : Type ℓ} {B : Type κ} (P : B → Type 0) (Q : A → Type 0) (r : Result A) (f : A → Result B)
    → Returns Q r
    → ((a : A) → Q a → Returns P (f a))
    → Returns P (r >>= f)
Returns-bind P Q (ok a) f h k = k a h
Returns-bind P Q (fault e) f h k = absurd h

pub Holds-Returns {ℓ} : {A : Type ℓ} (P : A → Type 0) (r : Result A) → Returns P r → Holds P r
Holds-Returns P (ok a) h = h
Holds-Returns P (fault e) h = absurd h

pub Holds-both {ℓ} :
    {A : Type ℓ} (P Q : A → Type 0) (r : Result A)
    → Holds P r
    → Holds Q r
    → Holds (λ a. P a × Q a) r
Holds-both P Q (ok a) h k = (h, k)
Holds-both P Q (fault e) h k = tt

pub Returns-both {ℓ} :
    {A : Type ℓ} (P Q : A → Type 0) (r : Result A)
    → Returns P r
    → Returns Q r
    → Returns (λ a. P a × Q a) r
Returns-both P Q (ok a) h k = (h, k)
Returns-both P Q (fault e) h k = absurd h
