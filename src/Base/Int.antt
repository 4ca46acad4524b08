-- ===== src/Base/Int.antt =====
-- The C type int, for descriptors and status results: an integer without a bound.
use Prim.Native.Nat.{ℕ}

-- `negsuc n` is -(n + 1).
pub data ℤ : Type 0 where
  pos : ℕ → ℤ
  negsuc : ℕ → ℤ

-- The error status -1.
abbrev pub minus_one : ℤ
minus_one = negsuc 0
