-- ===== src/Base/Int.antt =====
-- Signed integers over the native numbers, and Go's times and durations.
use Prim.Native.Nat.{ℕ, suc, ◌+◌, ◌-◌}
use mathlib.Core.Bool.{Bool, false}
use go_clean_arch_poc.Base.Tests.{ltb}

-- `negsuc n` is -(n + 1).
pub data ℤ : Type 0 where
  pos : ℕ → ℤ
  negsuc : ℕ → ℤ

-- Nanoseconds since Go's zero time, for which `IsZero` holds.
abbrev pub Time : Type 0
Time = ℕ

-- A `time.Duration` in nanoseconds.
abbrev pub Duration : Type 0
Duration = ℤ

abbrev pub is_positive : Duration → Bool
is_positive (pos n) = ltb 0 n
is_positive (negsuc n) = false

-- `t.Add(d)`. A duration stays below 293 years and a present time is two thousand years past the
-- zero time, so that the subtraction does not stop at 0.
abbrev pub add : Time → Duration → Time
add t (pos n) = t + n
add t (negsuc n) = t - suc n
