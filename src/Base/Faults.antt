-- ===== src/Base/Faults.antt =====
-- Calls that may end in a fault: a failed `assert`, a failed `GUARANTEE`, or undefined behaviour.
use mathlib.Core.Path.{◌≡◌, refl}
use mathlib.Core.Logic.{◌⊎◌, inl, inr}
use mathlib.Core.Bool.{Bool, true, false}

-- `assertion` is a failed `assert`, `guarantee` a failed GUARANTEE or GUARANTEE_ERR (`::abort`),
-- `undefined` an access that C++ gives no meaning.
pub data Fault : Type 0 where
  assertion guarantee undefined : Fault

-- What a call gives: the fault that ends the program, or its value.
pub data Result {ℓ} (A : Type ℓ) : Type ℓ where
  err : Fault → Result A
  ok : A → Result A

-- A test that a fault follows if it does not hold.
abbrev pub require : Fault → Bool → Result (Unit {0})
require fault false = err fault
require fault true = ok tt

infixl 5 ◌>>=◌ ◌>>◌
abbrev pub ◌>>=◌ {k l} : {A : Type k} {B : Type l} → Result A → (A → Result B) → Result B
err fault >>= next = err fault
ok value >>= next = next value

abbrev pub ◌>>◌ {l} : {B : Type l} → Result (Unit {0}) → Result B → Result B
first >> second = first >>= λ done. second

-- `assert(x)`
abbrev pub assert : Bool → Result (Unit {0})
assert = require assertion

-- A chain of calls that ends well: its first call ended well, and so did what comes behind.
pub >>=-eq-ok {k l} :
    {A : Type k} {B : Type l} {b : B} (first : Result A) (next : A → Result B)
    → (first >>= next) ≡ ok b
    → (value : A) × (first ≡ ok value) × (next value ≡ ok b)
>>=-eq-ok (err fault) next h = cc
>>=-eq-ok (ok value) next h = (value, refl, h)

pub >>=-congr {ℓ κ} :
    {A : Type ℓ} {B : Type κ} (m : Result A) (f g : A → Result B)
    → ((a : A) → f a ≡ g a)
    → (m >>= f) ≡ (m >>= g)
>>=-congr (ok a) f g h = h a
>>=-congr (err e) f g h = refl

pub Result-cases {ℓ} :
    {A : Type ℓ} (m : Result A) → ((a : A) × (m ≡ ok a)) ⊎ ((e : Fault) × (m ≡ err e))
Result-cases (ok a) = inl (a, refl)
Result-cases (err e) = inr (e, refl)

-- What comes behind an assertion is reached only if it holds.
pub require-eq-ok {ℓ} :
    {A : Type ℓ} (e : Fault) (b : Bool) (m : Result A) {a : A}
    → (require e b >> m) ≡ ok a
    → (b ≡ true) × (m ≡ ok a)
require-eq-ok e true m h = (refl, h)
require-eq-ok e false m h = cc

pub ok-injective {ℓ} : {A : Type ℓ} {a b : A} → ok a ≡ ok b → a ≡ b
ok-injective h = cc
