-- ===== src/Prelude/Int.antt =====
-- Signed integers over the native numbers, with the division of C++, which rounds towards zero.
use Prim.Native.Nat.{ℕ, suc, ◌+◌, ◌-◌, ◌/◌, ◌%◌}
use mathlib.Core.Bool.{Bool, true, false}
use qbm_pgsql.Prelude.Tests.{leb, if◌then◌else◌}

-- `negsuc n` is -(n + 1).
pub data ℤ : Type 0 where
  pos negsuc : ℕ → ℤ

abbrev pub pos_part : ℤ → ℕ
pos_part (pos n) = n
pos_part (negsuc n) = 0

abbrev pub neg_part : ℤ → ℕ
neg_part (pos n) = 0
neg_part (negsuc n) = suc n

-- a - b, as an integer.
abbrev pub sub_ℕ : ℕ → ℕ → ℤ
sub_ℕ a b = if leb b a then pos (a - b) else negsuc (b - a - 1)

abbrev pub add_ℕ : ℤ → ℕ → ℤ
add_ℕ a n = sub_ℕ (pos_part a + n) (neg_part a)

abbrev pub pred_ℤ : ℤ → ℤ
pred_ℤ a = sub_ℕ (pos_part a) (neg_part a + 1)

-- The number that a bit pattern stands for, where it is negative from `half` on.
abbrev pub signed : ℕ → ℕ → ℤ
signed half v = if leb half v then sub_ℕ v (half + half) else pos v

abbrev pub div_ℕ : ℤ → ℕ → ℤ
div_ℕ (pos a) n = pos (a / n)
div_ℕ (negsuc a) n = sub_ℕ 0 (suc a / n)

abbrev pub mod_ℕ : ℤ → ℕ → ℤ
mod_ℕ (pos a) n = pos (a % n)
mod_ℕ (negsuc a) n = sub_ℕ 0 (suc a % n)

abbrev pub is_negative : ℤ → Bool
is_negative (pos a) = false
is_negative (negsuc a) = true
