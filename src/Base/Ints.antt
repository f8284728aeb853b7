-- ===== src/Base/Ints.antt =====
-- The signed results of comparison functions, over the native ℕ.
use Prim.Native.Nat.{ℕ, ◌-◌}
use sisotp.Base.Tests.{ltb, if◌then◌else◌}

pub data ℤ : Type 0 where
  pos negsuc : ℕ → ℤ

-- The difference of two bytes as an `int`.
abbrev pub int_difference : (a b : ℕ) → ℤ
int_difference a b = if ltb a b then negsuc (b - a - 1) else pos (a - b)
