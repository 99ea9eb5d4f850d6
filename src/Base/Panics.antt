-- ===== src/Base/Panics.antt =====
-- Code that may panic: a failed `assert!`, `expect` or index stops the whole kernel. `stuck` is a loop
-- of the model that ran out of fuel.
use mathlib.Core.Path.{◌≡◌, refl}
use mathlib.Core.Logic.{◌≢◌}
use mathlib.Core.Option.{Option, none, some}
use mathlib.Core.Bool.{Bool, true, false}

pub data Outcome {ℓ} (A : Type ℓ) : Type ℓ where
  ok : A → Outcome A
  panic : Outcome A
  stuck : Outcome A

infixl 5 ◌>>=◌
abbrev pub ◌>>=◌ {ℓ κ} : {A : Type ℓ} {B : Type κ} → Outcome A → (A → Outcome B) → Outcome B
panic >>= next = panic
stuck >>= next = stuck
ok a >>= next = next a

-- `o.expect(...)`, `o.unwrap()`
abbrev pub expect {ℓ} : {A : Type ℓ} → Option A → Outcome A
expect (some a) = ok a
expect none = panic

-- `assert!(b)`
abbrev pub assert : Bool → Outcome (Unit {0})
assert true = ok tt
assert false = panic

-- A statement whose value is dropped.
infixl 5 ◌>>◌
abbrev pub ◌>>◌ {ℓ} : {B : Type ℓ} → Outcome (Unit {0}) → Outcome B → Outcome B
panic >> after = panic
stuck >> after = stuck
ok done >> after = after

-- A last step that only returns.
pub >>=-ok {ℓ} : {A : Type ℓ} (m : Outcome A) → (m >>= λ a. ok a) ≡ m
>>=-ok panic = refl
>>=-ok stuck = refl
>>=-ok (ok a) = refl

-- A call that does not run out of fuel.
abbrev pub Returns {ℓ} : {A : Type ℓ} → Outcome A → Type ℓ
Returns m = m ≢ stuck

pub expect-Returns {ℓ} : {A : Type ℓ} (o : Option A) → Returns (expect o)
expect-Returns none = λ e. cc
expect-Returns (some a) = λ e. cc

pub assert-Returns : (b : Bool) → Returns (assert b)
assert-Returns true = λ e. cc
assert-Returns false = λ e. cc

pub >>=-Returns {ℓ κ} :
    {A : Type ℓ} {B : Type κ} (m : Outcome A) (next : A → Outcome B)
    → Returns m
    → ((a : A) → Returns (next a))
    → Returns (m >>= next)
>>=-Returns (ok a) next h k = k a
>>=-Returns panic next h k = λ e. cc
>>=-Returns stuck next h k = λ e. h refl

-- What holds of the value, where there is one.
abbrev pub Ensures {ℓ} : {A : Type ℓ} → (A → Type 0) → Outcome A → Type 0
Ensures Q (ok a) = Q a
Ensures Q panic = Unit
Ensures Q stuck = Unit

pub >>=-Ensures {ℓ κ} :
    {A : Type ℓ} {B : Type κ} (Q : A → Type 0) (R : B → Type 0) (m : Outcome A)
    (next : A → Outcome B)
    → Ensures Q m
    → ((a : A) → Q a → Ensures R (next a))
    → Ensures R (m >>= next)
>>=-Ensures Q R (ok a) next h k = k a h
>>=-Ensures Q R panic next h k = tt
>>=-Ensures Q R stuck next h k = tt

-- A call's own equation.
pub Ensures-result : {A : Type 0} (m : Outcome A) → Ensures (λ a. m ≡ ok a) m
Ensures-result (ok a) = refl
Ensures-result panic = tt
Ensures-result stuck = tt

-- Where nothing of the value matters.
pub >>=-Always {ℓ κ} :
    {A : Type ℓ} {B : Type κ} (R : B → Type 0) (m : Outcome A) (next : A → Outcome B)
    → ((a : A) → Ensures R (next a))
    → Ensures R (m >>= next)
>>=-Always R (ok a) next k = k a
>>=-Always R panic next k = tt
>>=-Always R stuck next k = tt

pub Ensures-map {ℓ} :
    {A : Type ℓ} (Q R : A → Type 0) (m : Outcome A)
    → Ensures Q m
    → ((a : A) → Q a → R a)
    → Ensures R m
Ensures-map Q R (ok a) h f = f a h
Ensures-map Q R panic h f = tt
Ensures-map Q R stuck h f = tt
