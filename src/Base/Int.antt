-- ===== src/Base/Int.antt =====
-- Go's signed integers, over the native numbers; `negsuc n` is -(n + 1).
use Prim.Native.Nat.{ℕ, suc, ◌+◌, ◌-◌}
use mathlib.Core.Bool.{Bool, true, false}
use proton_utils.Base.Tests.{leb, if◌then◌else◌}

pub data ℤ : Type 0 where
  pos : ℕ → ℤ
  negsuc : ℕ → ℤ

abbrev pub sub_ℕ : ℕ → ℕ → ℤ
sub_ℕ a b = if leb b a then pos (a - b) else negsuc (b - a - 1)

-- `n + z` for a number that is not negative
abbrev pub offset_by : ℕ → ℤ → ℤ
offset_by n (pos k) = pos (n + k)
offset_by n (negsuc k) = sub_ℕ n (suc k)

abbrev pub is_neg : ℤ → Bool
is_neg (pos n) = false
is_neg (negsuc n) = true
