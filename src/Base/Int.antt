-- ===== src/Base/Int.antt =====
-- The integers among the JavaScript numbers, with NaN. `negsuc n` is -(n + 1).
use Prim.Native.Nat.{ℕ, suc, ◌+◌, ◌-◌}
use mathlib.Core.Path.{◌≡◌}
use native.Mathlib.Omega.{arith}
use mathlib.Core.Bool.{Bool, false}
use chat_serve.Base.Tests.{leb, ltb, if◌then◌else◌}

pub data ℤ : Type 0 where
  pos : ℕ → ℤ
  negsuc : ℕ → ℤ

abbrev pub pos_part : ℤ → ℕ
pos_part (pos n) = n
pos_part (negsuc n) = 0

abbrev pub neg_part : ℤ → ℕ
neg_part (pos n) = 0
neg_part (negsuc n) = suc n

abbrev pub sub_ℕ : ℕ → ℕ → ℤ
sub_ℕ a b = if leb b a then pos (a - b) else negsuc (b - a - 1)

infixl 65 ◌+ℤ◌
abbrev pub ◌+ℤ◌ : ℤ → ℤ → ℤ
a +ℤ b = sub_ℕ (pos_part a + pos_part b) (neg_part a + neg_part b)

-- A value of type number: NaN, or an integer that a double holds exactly.
pub data Num : Type 0 where
  nan : Num
  int : ℤ → Num

abbrev pub nat : ℕ → Num
nat n = int (pos n)

unfoldable pub add_num : Num → Num → Num
add_num (int a) (int b) = int (a +ℤ b)
add_num _ _ = nan

-- `a < n` and `a >= n` for a natural number `a`; a comparison with NaN is false.
abbrev pub lt_num : ℕ → Num → Bool
lt_num a (int (pos b)) = ltb a b
lt_num a _ = false

abbrev pub ge_num : ℕ → Num → Bool
ge_num a nan = false
ge_num a (int b) = leb (pos_part b) a

pub add_num-nat : (a b : ℕ) → add_num (nat a) (nat b) ≡ nat (a + b)
unfolding add_num
add_num-nat a b = ground arith
