-- ===== src/Common/Faults.antt =====
-- Code that may touch memory outside of an array, or end the process.
use mathlib.Core.Path.{◌≡◌, refl}

pub data Fault : Type 0 where
  out_of_bounds : Fault  -- an access outside of an array
  stopped : Fault  -- exit(-1), abort() or a failed assertion
  endless : Fault  -- a loop that does not end
  null_call : Fault  -- a call through a null pointer
  dangling : Fault  -- an access to memory that has been freed

pub data Outcome {ℓ} (A : Type ℓ) : Type ℓ where
  ok : A → Outcome A
  fault : Fault → Outcome A

infixl 5 ◌>>=◌
abbrev pub ◌>>=◌ {ℓ κ} : {A : Type ℓ} {B : Type κ} → Outcome A → (A → Outcome B) → Outcome B
ok a >>= f = f a
fault e >>= f = fault e

-- A chain that returns has returned at each of its steps.
pub >>=-ok {ℓ κ} :
    {A : Type ℓ} {B : Type κ} (o : Outcome A) (f : A → Outcome B) (b : B)
    → (o >>= f) ≡ ok b
    → (a : A) × (o ≡ ok a) × (f a ≡ ok b)
>>=-ok (ok a) f b e = (a, refl, e)
>>=-ok (fault x) f b e = cc
