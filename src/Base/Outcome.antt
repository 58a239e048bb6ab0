-- ===== src/Base/Outcome.antt =====
-- The outcome of running C code: a value, an access that C leaves undefined, or no fuel left.
use mathlib.Core.Path.{◌≡◌, refl}

pub data Run {ℓ} (A : Type ℓ) : Type ℓ where
  fault out_of_fuel : Run A
  ok : A → Run A

-- The code behind a step runs only if the step returns.
infixl 5 ◌>>=◌
abbrev pub ◌>>=◌ {ℓ κ} : {A : Type ℓ} {B : Type κ} → Run A → (A → Run B) → Run B
◌>>=◌ m k = elim m [ fault ↦ fault | out_of_fuel ↦ out_of_fuel | ok a ↦ k a ]

-- A run that returns has returned from its first step.
pub bind_inv {ℓ κ} :
    {A : Type ℓ} {B : Type κ} {b : B} (m : Run A) (k : A → Run B)
    → m >>= k ≡ ok b
    → (a : A) × (m ≡ ok a) × (k a ≡ ok b)
bind_inv fault k e = cc
bind_inv out_of_fuel k e = cc
bind_inv (ok a) k e = (a, refl, e)

-- A run has fuel enough, and what it returns satisfies `P`, if it does not fault.
abbrev pub Ensures {ℓ} : {A : Type ℓ} → (A → Type 0) → Run A → Type 0
Ensures P (ok a) = P a
Ensures P fault = Unit
Ensures P out_of_fuel = ⊥

pub Ensures-bind {ℓ κ} :
    {A : Type ℓ} {B : Type κ} (P : A → Type 0) (Q : B → Type 0) (m : Run A) (f : A → Run B)
    → Ensures P m
    → ((a : A) → P a → Ensures Q (f a))
    → Ensures Q (m >>= f)
Ensures-bind P Q (ok a) f h next = next a h
Ensures-bind P Q fault f h next = tt
Ensures-bind P Q out_of_fuel f h next = absurd h

pub Ensures-mono {ℓ} :
    {A : Type ℓ} (P Q : A → Type 0) (m : Run A) → Ensures P m → ((a : A) → P a → Q a) → Ensures Q m
Ensures-mono P Q (ok a) h weaken = weaken a h
Ensures-mono P Q fault h weaken = tt
Ensures-mono P Q out_of_fuel h weaken = absurd h

-- Runs that go on alike.
pub bind-cong {ℓ κ} :
    {A : Type ℓ} {B : Type κ} (m : Run A) (f g : A → Run B)
    → ((a : A) → f a ≡ g a)
    → m >>= f ≡ m >>= g
bind-cong fault f g e = refl
bind-cong out_of_fuel f g e = refl
bind-cong (ok a) f g e = e a
