-- ===== src/Common/Int.antt =====
-- Signed integers over the native numbers.
use Prim.Native.Nat.{ℕ, suc, ◌≤◌}

-- `negsuc n` is -(n + 1).
pub data ℤ : Type 0 where
  pos : ℕ → ℤ
  negsuc : ℕ → ℤ

abbrev pub pos_part : ℤ → ℕ
pos_part (pos n) = n
pos_part (negsuc n) = 0

abbrev pub neg_part : ℤ → ℕ
neg_part (pos n) = 0
neg_part (negsuc n) = suc n

-- The values of `i8` and `i32`.
abbrev pub IsI8 : ℤ → Type 0
IsI8 z = (pos_part z ≤ 127) × (neg_part z ≤ 128)

abbrev pub IsI32 : ℤ → Type 0
IsI32 z = (pos_part z ≤ 2147483647) × (neg_part z ≤ 2147483648)
