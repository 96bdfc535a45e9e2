-- ===== src/Common/Int.antt =====
-- The C type `int`, where the source takes negative values apart. `negsuc n` is -(n + 1).
use Prim.Native.Nat.{ℕ}

pub data ℤ : Type 0 where
  pos : ℕ → ℤ
  negsuc : ℕ → ℤ
