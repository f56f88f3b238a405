-- ===== src/Prelude/Results.antt =====
-- What a Python call does: it returns a value or raises. `E` is the type of the exceptions that
-- the component at hand raises.
use mathlib.Core.Path.{◌≡◌, refl}
use mathlib.Core.Bool.{Bool, true, false}
use ninja_devx.Prelude.Tests.{if◌then◌else◌}

pub data Outcome {ℓ κ} (E : Type ℓ) (A : Type κ) : Type (ℓ ⊔ κ) where
  ok : A → Outcome E A
  raise : E → Outcome E A

infixl 5 ◌>>=◌ ◌>>◌
abbrev pub ◌>>=◌ {ℓ κ μ} :
    {E : Type ℓ} {A : Type κ} {B : Type μ} → Outcome E A → (A → Outcome E B) → Outcome E B
ok a >>= f = f a
raise e >>= f = raise e

abbrev pub ◌>>◌ {ℓ κ} : {E : Type ℓ} {B : Type κ} → Outcome E (Unit {0}) → Outcome E B → Outcome E B
m >> k = m >>= λ _. k

-- `if not test: raise e`
abbrev pub require {ℓ} : {E : Type ℓ} → Bool → E → Outcome E (Unit {0})
require true e = ok tt
require false e = raise e

-- What a sequence of calls that returned says of each.
module _ {ℓ κ μ} {E : Type ℓ} {A : Type κ} {B : Type μ} where
  pub bind_ok :
      (o : Outcome E A) (k : A → Outcome E B) (b : B)
      → (o >>= k) ≡ ok b
      → (a : A) × (o ≡ ok a) × (k a ≡ ok b)
  bind_ok (ok a) k b h = (a, refl, h)
  bind_ok (raise e) k b h = cc

module _ {ℓ κ} {E : Type ℓ} {B : Type κ} where
  pub require_ok :
      (test : Bool) (e : E) (o : Outcome E B) (b : B)
      → (require test e >> o) ≡ ok b
      → (test ≡ true) × (o ≡ ok b)
  require_ok true e o b h = (refl, h)
  require_ok false e o b h = cc

  pub unless_ok :
      (test : Bool) (e : E) (o : Outcome E B) (b : B)
      → (if test then raise e else o) ≡ ok b
      → (test ≡ false) × (o ≡ ok b)
  unless_ok false e o b h = (refl, h)
  unless_ok true e o b h = cc
