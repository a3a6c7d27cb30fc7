-- ===== src/Result.antt =====
-- What a call of the C++ code comes to: a value, or one of the ways in which it never returns one.
use sponge_bob.Prelude.{◌≡◌, refl, arith, Option, none, some}

pub data Fault : Type 0 where
  -- `lock` of a mutex that nobody will release
  deadlock : Fault
  -- a null `shared_ptr` is dereferenced
  null_pointer : Fault
  -- `top` or `pop` of an empty `priority_queue`
  empty_queue : Fault
  -- `operator[]` of a vector beyond its end
  out_of_range : Fault
  -- a failed `assert`
  assertion : Fault
  -- `%` by zero
  zero_divisor : Fault
  -- the model's own: a loop was given too little fuel
  out_of_fuel : Fault

pub data Result {ℓ} (A : Type ℓ) : Type ℓ where
  ok : A → Result A
  fault : Fault → Result A

infixl 5 ◌>>=◌ ◌>>◌
abbrev pub ◌>>=◌ {ℓ κ} : {A : Type ℓ} {B : Type κ} → Result A → (A → Result B) → Result B
ok a >>= f = f a
fault e >>= f = fault e

abbrev pub ◌>>◌ {ℓ} : {B : Type ℓ} → Result (Unit {0}) → Result B → Result B
m >> k = m >>= λ _. k

-- `p->…` on a pointer, `v[i]` on a vector: the value, or the fault.
abbrev pub or_fault {ℓ} : {A : Type ℓ} → Option A → Fault → Result A
or_fault none e = fault e
or_fault (some a) e = ok a

-- A chain that succeeds has a first step that does.
pub bind_ok :
    {A B : Type 0} (m : Result A) (k : A → Result B) (b : B)
    → (m >>= k) ≡ ok b
    → (a : A) × (m ≡ ok a) × (k a ≡ ok b)
bind_ok (ok a) k b e = (a, refl, e)
bind_ok (fault x) k b e = absurd (ground (arith, e))
