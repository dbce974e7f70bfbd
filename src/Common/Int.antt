-- ===== src/Common/Int.antt =====
-- Integers over the native numbers, for durations and counts that a caller may give negative.
use Prim.Native.Nat.{ℕ, suc, ◌+◌, ◌-◌}
use mathlib.Core.Bool.{Bool, true, false}
use fastapi_infra.Common.Tests.{leb, if◌then◌else◌}

-- `negsuc n` is -(n + 1).
pub data ℤ : Type 0 where
  pos : ℕ → ℤ
  negsuc : ℕ → ℤ

-- `max(0, z)`
abbrev pub pos_part : ℤ → ℕ
pos_part (pos n) = n
pos_part (negsuc n) = 0

-- `z <= 0`
abbrev pub is_nonpos : ℤ → Bool
is_nonpos (pos n) = leb n 0
is_nonpos (negsuc n) = true

-- `z < 0`
abbrev pub is_neg : ℤ → Bool
is_neg (pos n) = false
is_neg (negsuc n) = true

-- `n + z`
abbrev pub add_int : ℕ → ℤ → ℤ
add_int n (pos m) = pos (n + m)
add_int n (negsuc m) = if leb (suc m) n then pos (n - suc m) else negsuc (m - n)

-- `n >= z`
abbrev pub has_reached : ℕ → ℤ → Bool
has_reached n (pos m) = leb m n
has_reached n (negsuc m) = true
