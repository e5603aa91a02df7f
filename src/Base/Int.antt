-- ===== src/Base/Int.antt =====
-- The values of an `int`.
use Prim.Native.Nat.{ℕ, suc}

-- `negsuc n` is -(n + 1).
pub data ℤ : Type 0 where
  pos : ℕ → ℤ
  negsuc : ℕ → ℤ

abbrev pub pos_part : ℤ → ℕ
pos_part (pos n) = n
pos_part (negsuc n) = 0

abbrev pub abs : ℤ → ℕ
abs (pos n) = n
abs (negsuc n) = suc n
