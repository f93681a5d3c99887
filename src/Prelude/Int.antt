-- ===== src/Prelude/Int.antt =====
-- Signed numbers, for the values that the C library gives as a `long`.
use Prim.Native.Nat.{ℕ}

pub data ℤ : Type 0 where
  pos : ℕ → ℤ
  negsuc : ℕ → ℤ
