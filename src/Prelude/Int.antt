-- ===== src/Prelude/Int.antt =====
-- Signed integers over the native numbers, and the words of `w` bits that stand for them.
use Prim.Native.Nat.{ℕ, ◌-◌, ◌^◌}
use pico_lan.Prelude.Tests.{ltb, if◌then◌else◌}

-- `negsuc n` is -(n + 1).
pub data ℤ : Type 0 where
  pos : ℕ → ℤ
  negsuc : ℕ → ℤ

-- The bit pattern of an integer in two's complement.
abbrev pub pattern : ℕ → ℤ → ℕ
pattern w (pos n) = n
pattern w (negsuc n) = 2 ^ w - 1 - n

-- The integer that a bit pattern stands for.
abbrev pub signed : ℕ → ℕ → ℤ
signed w u = if ltb u (2 ^ (w - 1)) then pos u else negsuc (2 ^ w - 1 - u)
