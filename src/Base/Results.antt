-- ===== src/Base/Results.antt =====
-- The results of fallible Go functions. Messages are dropped; what `errors.Is` and the callers
-- tell apart is kept: the sentinel domain.ErrNotFound, a cancelled context, any other error.
-- Wrapping an error with %w keeps its class, so it is no operation here.
pub data Err : Type 0 where
  not_found canceled failed : Err

pub data Outcome {ℓ} (A : Type ℓ) : Type ℓ where
  ok : A → Outcome A
  err : Err → Outcome A

infixl 5 ◌>>=◌ ◌>>◌
abbrev pub ◌>>=◌ {ℓ κ} : {A : Type ℓ} {B : Type κ} → Outcome A → (A → Outcome B) → Outcome B
ok a >>= f = f a
err e >>= f = err e

abbrev pub ◌>>◌ {ℓ} : {B : Type ℓ} → Outcome (Unit {0}) → Outcome B → Outcome B
m >> k = m >>= λ _. k
