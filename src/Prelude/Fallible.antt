-- ===== src/Prelude/Fallible.antt =====
-- A chain of steps that may have no result, as `do` blocks over `Option`.
use mathlib.Core.Option.{Option, none, some}
use mathlib.Core.Path.{◌≡◌}

infixl 5 ◌>>=◌
unfoldable pub ◌>>=◌ {ℓ κ} : {A : Type ℓ} {B : Type κ} → Option A → (A → Option B) → Option B
none >>= f = none
some a >>= f = f a

module _ {ℓ κ} {A : Type ℓ} {B : Type κ} where
  -- A chain whose first step has a result goes on with it.
  pub bind-some :
      {m : Option A} {a : A} {r : Option B} (f : A → Option B)
      → m ≡ some a
      → f a ≡ r
      → (m >>= f) ≡ r
  unfolding ◌>>=◌
  bind-some f e g = rw e g
