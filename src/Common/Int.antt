-- ===== src/Common/Int.antt =====
-- Signed integers over the native numbers, for `int` and `ssize_t` values. `negsuc n` is -(n + 1).
use Prim.Native.Nat.{ℕ}

pub data ℤ : Type 0 where
  pos : ℕ → ℤ
  negsuc : ℕ → ℤ
