-- ===== src/Base/Integers.antt =====
-- Signed integers over the native numbers, for the fields of type i32.
use Prim.Native.Nat.{ℕ}

pub data ℤ : Type 0 where
  pos negsuc : ℕ → ℤ
