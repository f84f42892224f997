-- ===== src/Common/Int.antt =====
-- Go's signed integers, over the native numbers; the range of an int64 is not part of them.
use Prim.Native.Nat.{ℕ, ◌-◌}
use mathlib.Core.Bool.{Bool, false}
use better_pg_keeper.Common.Tests.{ltb, leb, if◌then◌else◌}

-- `negsuc n` is -(n + 1).
pub data ℤ : Type 0 where
  pos : ℕ → ℤ
  negsuc : ℕ → ℤ

-- a - b, as an integer.
abbrev pub sub_ℕ : ℕ → ℕ → ℤ
sub_ℕ a b = if leb b a then pos (a - b) else negsuc (b - a - 1)

-- Whether an integer is above a number.
abbrev pub above : ℕ → ℤ → Bool
above n (pos m) = ltb n m
above n (negsuc _) = false
