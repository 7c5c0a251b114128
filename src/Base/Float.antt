-- ===== src/Base/Float.antt =====
-- Go's `float64`. A value is its bit pattern; the processor's operations are parameters, with the
-- laws of IEEE 754 that the proofs use.
use ai_proxy_pool.Base.{ℕ, Bool}
use ai_proxy_pool.Base.Int.{ℤ}

pub record Float : Type 0 where
  pub of_int : ℤ → ℕ
  pub div : ℕ → ℕ → ℕ
  pub le : ℕ → ℕ → Bool
  pub beq : ℕ → ℕ → Bool

-- The literals 0, 0.5 and 1.
abbrev pub f_zero : ℕ
f_zero = 0

abbrev pub f_half : ℕ
f_half = 0x3FE0000000000000

abbrev pub f_one : ℕ
f_one = 0x3FF0000000000000
