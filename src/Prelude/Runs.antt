-- ===== src/Prelude/Runs.antt =====
-- C functions with a state as `S → Outcome S A`. A negative return code is `fail`, undefined
-- behaviour (an access out of bounds, a null pointer, a failed assertion, a signed overflow) is
-- `fault`.
use Prim.Native.Nat.{ℕ}
use mathlib.Core.Path.{◌≡◌, refl}
use mathlib.Core.Logic.{◌⊎◌, inl, inr}
use mathlib.Core.Option.{Option, none, some}

pub data Outcome {ℓ κ} (S : Type ℓ) (A : Type κ) : Type (ℓ ⊔ κ) where
  ok : A → S → Outcome S A
  fail : ℕ → S → Outcome S A
  fault : Outcome S A

abbrev pub Run {ℓ κ} : Type ℓ → Type κ → Type (ℓ ⊔ κ)
Run S A = S → Outcome S A

-- `rc = rc ? : next`: the rest runs only after a zero return code.
infixl 5 ◌>>=◌ ◌>>◌
abbrev pub ◌>>=◌ {ℓ κ μ} :
    {S : Type ℓ} {A : Type κ} {B : Type μ} → Run S A → (A → Run S B) → Run S B
◌>>=◌ m f s = elim (m s) [ ok a s' ↦ f a s' | fail rc s' ↦ fail rc s' | fault ↦ fault ]

abbrev pub ◌>>◌ {ℓ κ μ} : {S : Type ℓ} {A : Type κ} {B : Type μ} → Run S A → Run S B → Run S B
m >> k = m >>= λ _. k

abbrev pub return {ℓ κ} : {S : Type ℓ} {A : Type κ} → A → Run S A
return a s = ok a s

-- A step that is undefined behaviour at `none`.
abbrev pub defined {ℓ κ} : {S : Type ℓ} {A : Type κ} → Option A → Run S A
defined none s = fault
defined (some a) s = ok a s

-- The result of a C function that returns nothing but a code.
abbrev pub Void : Type 0
Void = Unit {0}

module _ {ℓ κ μ} {S : Type ℓ} {A : Type κ} {B : Type μ} (m : Run S A) (f : A → Run S B) where
  pub bind-ok : {s s' : S} {a : A} → m s ≡ ok a s' → (m >>= f) s ≡ f a s'
  bind-ok e = rw (e, ◌>>=◌)

  pub bind-fail : {s s' : S} {rc : ℕ} → m s ≡ fail rc s' → (m >>= f) s ≡ fail rc s'
  bind-fail e = rw (e, ◌>>=◌)

  pub bind-fault : {s : S} → m s ≡ fault → (m >>= f) s ≡ fault
  bind-fault e = rw (e, ◌>>=◌)

pub Outcome-cases {ℓ κ} :
    {S : Type ℓ} {A : Type κ} (o : Outcome S A)
    → ((a : A) × (s : S) × (o ≡ ok a s)) ⊎ (((rc : ℕ) × (s : S) × (o ≡ fail rc s)) ⊎ (o ≡ fault))
Outcome-cases (ok a s) = inl (a, s, refl)
Outcome-cases (fail rc s) = inr (inl (rc, s, refl))
Outcome-cases fault = inr (inr refl)
