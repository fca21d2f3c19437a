-- ===== src/Base/Integers.antt =====
-- An int64 as the integer that it holds.
use Prim.Native.Nat.{ℕ}

-- negsuc n is -(n + 1).
pub data ℤ : Type 0 where
  pos : ℕ → ℤ
  negsuc : ℕ → ℤ
