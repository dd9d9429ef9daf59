-- ===== src/Prelude/Int.antt =====
-- Signed integers over the native numbers, for differences of two numbers.
use Prim.Native.Nat.{ℕ, suc, ◌+◌, ◌-◌, ◌≤◌}
use mathlib.Core.Bool.{Bool, true, false}
use internship_pilot.Prelude.Tests.{leb, if◌then◌else◌}

-- `negsuc n` is -(n + 1).
pub data ℤ : Type 0 where
  pos : ℕ → ℤ
  negsuc : ℕ → ℤ

-- a - b, as an integer.
abbrev pub sub_ℕ : ℕ → ℕ → ℤ
sub_ℕ a b = if leb b a then pos (a - b) else negsuc (b - a - 1)

abbrev pub pos_part : ℤ → ℕ
pos_part (pos n) = n
pos_part (negsuc n) = 0

abbrev pub neg_part : ℤ → ℕ
neg_part (pos n) = 0
neg_part (negsuc n) = suc n

-- `z !== 0`.
abbrev pub is_nonzero : ℤ → Bool
is_nonzero z = if leb (pos_part z + neg_part z) 0 then false else true

-- `z <= 0`, as `Array.prototype.sort` reads a comparison.
abbrev pub IsNonpos : ℤ → Type 0
IsNonpos z = pos_part z ≤ 0
