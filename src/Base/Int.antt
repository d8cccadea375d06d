-- ===== src/Base/Int.antt =====
-- The signed results of C calls, and the tests the programs make on them.
use Prim.Native.Nat.{ℕ, zero, suc, ◌<◌}
use mathlib.Core.Path.{◌≡◌, refl}
use native.Mathlib.Omega.{arith}
use mathlib.Core.Bool.{Bool, true, false}
use cloudssh.Base.Tests.{◌==◌}

-- `negsuc n` is -(n + 1).
pub data ℤ : Type 0 where
  pos : ℕ → ℤ
  negsuc : ℕ → ℤ

-- The number of a count that is not negative, as `size_t` sees it.
abbrev pub pos_part : ℤ → ℕ
pos_part (pos n) = n
pos_part (negsuc n) = 0

abbrev pub is_neg : ℤ → Bool
is_neg (pos n) = false
is_neg (negsuc n) = true

abbrev pub is_zero : ℤ → Bool
is_zero (pos n) = n == 0
is_zero (negsuc n) = false

abbrev pub is_pos : ℤ → Bool
is_pos (pos zero) = false
is_pos (pos (suc n)) = true
is_pos (negsuc n) = false

abbrev pub is_minus_one : ℤ → Bool
is_minus_one (pos n) = false
is_minus_one (negsuc n) = n == 0

-- LIBSSH2_ERROR_EAGAIN is -37.
abbrev pub is_eagain : ℤ → Bool
is_eagain (pos n) = false
is_eagain (negsuc n) = n == 36

abbrev pub eagain : ℤ
eagain = negsuc 36

abbrev pub minus_one : ℤ
minus_one = negsuc 0

pub neg_part_zero : (z : ℤ) → is_neg z ≡ true → pos_part z ≡ 0
neg_part_zero (pos n) e = ground arith
neg_part_zero (negsuc n) e = refl

pub pos_not_neg : (z : ℤ) → is_pos z ≡ true → is_neg z ≡ false
pos_not_neg (pos n) e = refl
pos_not_neg (negsuc n) e = ground arith

pub eagain_neg : (z : ℤ) → is_eagain z ≡ true → is_neg z ≡ true
eagain_neg (pos n) e = ground arith
eagain_neg (negsuc n) e = refl

pub pos_part_pos : (z : ℤ) → is_pos z ≡ true → 0 < pos_part z
pos_part_pos (pos zero) e = ground arith
pos_part_pos (pos (suc n)) e = omega arith
pos_part_pos (negsuc n) e = ground arith

pub pos_not_eagain : (z : ℤ) → is_pos z ≡ true → is_eagain z ≡ false
pos_not_eagain (pos n) e = refl
pos_not_eagain (negsuc n) e = ground arith

pub eagain_not_pos : (z : ℤ) → is_eagain z ≡ true → is_pos z ≡ false
eagain_not_pos (pos n) e = ground arith
eagain_not_pos (negsuc n) e = refl
