-- ===== src/Common/Outcome.antt =====
-- What a Python function does: it returns, or it raises an error of the service.

use mathlib.Core.Path.{◌≡◌, refl}

pub data Outcome {ℓ} (E A : Type ℓ) : Type ℓ where
  ok : A → Outcome E A
  raise : E → Outcome E A

infixl 5 ◌>>=◌
abbrev pub ◌>>=◌ {ℓ} : {E A B : Type ℓ} → Outcome E A → (A → Outcome E B) → Outcome E B
ok a >>= f = f a
raise e >>= f = raise e

-- A chain that returns has a first part that does, and then the rest.
pub bind-ok {ℓ} :
    {E A B : Type ℓ} (a : Outcome E A) (f : A → Outcome E B) (b : B)
    → a >>= f ≡ ok b
    → (x : A) × (a ≡ ok x) × (f x ≡ ok b)
bind-ok (ok x) f b h = (x, refl, h)
bind-ok (raise e) f b h = cc
