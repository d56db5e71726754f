-- ===== src/Prelude/Int.antt =====
-- The integers, for Go's `int` where it is negative.
use Prim.Native.Nat.{ℕ, zero, suc, ◌/◌}

-- `negsuc n` is -(n + 1).
pub data ℤ : Type 0 where
  pos : ℕ → ℤ
  negsuc : ℕ → ℤ

abbrev pub minus : ℕ → ℤ
minus zero = pos 0
minus (suc n) = negsuc n

-- Go's division, which rounds towards zero; not by zero.
abbrev pub quotient : ℤ → ℤ → ℤ
quotient (pos m) (pos n) = pos (m / n)
quotient (pos m) (negsuc n) = minus (m / suc n)
quotient (negsuc m) (pos n) = minus (suc m / n)
quotient (negsuc m) (negsuc n) = pos (suc m / suc n)
