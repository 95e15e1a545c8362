-- ===== src/Prelude/Options.antt =====
-- Chains of steps that may give no result.
use mathlib.Core.Path.{◌≡◌, refl}
use mathlib.Core.Bool.{Bool, true, false}
use mathlib.Core.Option.{Option, none, some}

infixl 5 ◌>>=◌ ◌>>◌
abbrev pub ◌>>=◌ {ℓ κ} : {A : Type ℓ} {B : Type κ} → Option A → (A → Option B) → Option B
none >>= f = none
some a >>= f = f a

abbrev pub ◌>>◌ {ℓ} : {B : Type ℓ} → Option (Unit {0}) → Option B → Option B
m >> k = m >>= λ _. k

-- go on only if the test holds
abbrev pub guard : Bool → Option (Unit {0})
guard true = some tt
guard false = none

-- What a chain that gave a result went through, handed on step by step.
module _ {ℓ κ} {B : Type ℓ} {G : Type κ} {b : B} where
  pub after-some {μ} :
      {A : Type μ} (m : Option A) (f : A → Option B)
      → (m >>= f) ≡ some b
      → ((a : A) → m ≡ some a → f a ≡ some b → G)
      → G
  after-some none f h k = cc
  after-some (some a) f h k = k a refl h

  pub after-guard :
      (t : Bool) (m : Option B) → (guard t >> m) ≡ some b → (t ≡ true → m ≡ some b → G) → G
  after-guard true m h k = k refl h
  after-guard false m h k = cc
