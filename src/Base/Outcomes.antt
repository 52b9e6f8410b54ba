-- ===== src/Base/Outcomes.antt =====
-- What a C routine may come to, and the sequencing of routines.
use mathlib.Core.Path.{◌≡◌, refl}
use mathlib.Core.Bool.{Bool, true, false}
use lighttpd_multithread.Base.Tests.{if◌then◌else◌}

-- `aborted` is a failed `force_assert` (the process ends by `abort`); `fault` is an access outside
-- the memory that the program owns, which C leaves undefined.
pub data Outcome {ℓ} (A : Type ℓ) : Type ℓ where
  ok : A → Outcome A
  aborted fault : Outcome A

infixl 5 ◌>>=◌ ◌>>◌
abbrev pub ◌>>=◌ {ℓ κ} : {A : Type ℓ} {B : Type κ} → Outcome A → (A → Outcome B) → Outcome B
ok a >>= f = f a
aborted >>= f = aborted
fault >>= f = fault

abbrev pub ◌>>◌ {ℓ} : {B : Type ℓ} → Outcome (Unit {0}) → Outcome B → Outcome B
m >> k = m >>= λ _. k

-- The macro `force_assert` of buffer.h.
abbrev pub force_assert : Bool → Outcome (Unit {0})
force_assert true = ok tt
force_assert false = aborted

-- What an outcome is, where the routine returns.
abbrev pub Ensures {ℓ κ} : {A : Type ℓ} → (A → Type κ) → Outcome A → Type κ
Ensures P (ok x) = P x
Ensures P aborted = Unit
Ensures P fault = Unit

pub Ensures-bind {ℓ κ ρ σ} :
    {A : Type ℓ} {B : Type κ} (P : A → Type ρ) (Q : B → Type σ) (m : Outcome A) (f : A → Outcome B)
    → Ensures P m
    → ((x : A) → P x → Ensures Q (f x))
    → Ensures Q (m >>= f)
Ensures-bind P Q (ok x) f h g = g x h
Ensures-bind P Q aborted f h g = tt
Ensures-bind P Q fault f h g = tt

-- Where nothing is known of the first routine.
pub Ensures-after {ℓ κ σ} :
    {A : Type ℓ} {B : Type κ} (Q : B → Type σ) (m : Outcome A) (f : A → Outcome B)
    → ((x : A) → Ensures Q (f x))
    → Ensures Q (m >>= f)
Ensures-after Q (ok x) f g = g x
Ensures-after Q aborted f g = tt
Ensures-after Q fault f g = tt

pub Ensures-if {ℓ κ} :
    {A : Type ℓ} (Q : A → Type κ) (b : Bool) (m n : Outcome A)
    → Ensures Q m
    → Ensures Q n
    → Ensures Q (if b then m else n)
Ensures-if Q true m n h g = h
Ensures-if Q false m n h g = g

-- Where a branch needs what the test has told.
pub Ensures-test {ℓ κ} :
    {A : Type ℓ} (Q : A → Type κ) (b : Bool) (m n : Outcome A)
    → (b ≡ true → Ensures Q m)
    → (b ≡ false → Ensures Q n)
    → Ensures Q (if b then m else n)
Ensures-test Q true m n h g = h refl
Ensures-test Q false m n h g = g refl

pub Ensures-weaken {ℓ ρ σ} :
    {A : Type ℓ} {P : A → Type ρ} {Q : A → Type σ} (m : Outcome A)
    → Ensures P m
    → ((x : A) → P x → Q x)
    → Ensures Q m
Ensures-weaken (ok x) h f = f x h
Ensures-weaken aborted h f = tt
Ensures-weaken fault h f = tt
