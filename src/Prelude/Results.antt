-- ===== src/Prelude/Results.antt =====
-- What a piece of kernel code comes to. `abort` is a failed `assert`, after which the kernel halts;
-- `fault` is an access to memory that is no object of the program, of which C says nothing; `spin`
-- says that a loop used up the rounds that the model gives it.
use mathlib.Core.Bool.{Bool, true, false}

pub data Run {ℓ} (A : Type ℓ) : Type ℓ where
  ok : A → Run A
  abort : Run A
  fault : Run A
  spin : Run A

infixl 5 ◌>>=◌ ◌>>◌
abbrev pub ◌>>=◌ {ℓ κ} : {A : Type ℓ} {B : Type κ} → Run A → (A → Run B) → Run B
ok a >>= f = f a
abort >>= f = abort
fault >>= f = fault
spin >>= f = spin

abbrev pub ◌>>◌ {ℓ} : {A : Type ℓ} → Run (Unit {0}) → Run A → Run A
first >> then_run = first >>= λ done. then_run

-- `assert(b)`.
abbrev pub assert : Bool → Run (Unit {0})
assert true = ok tt
assert false = abort
