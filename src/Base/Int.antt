-- ===== src/Base/Int.antt =====
-- Signed integers over the native numbers, under the library's names.
use lighttpd_multithread.Base.Tests.{leb, if◌then◌else◌}
use Prim.Native.Nat.{ℕ, zero, suc, ◌-◌}
use mathlib.Core.Path.{◌≡◌, refl}
use mathlib.Core.Bool.{Bool, true, false}

-- `negsuc n` is -(n + 1).
pub data ℤ : Type 0 where
  pos : ℕ → ℤ
  negsuc : ℕ → ℤ

-- a - b, as an integer.
abbrev pub sub_ℕ : ℕ → ℕ → ℤ
sub_ℕ a b = if leb b a then pos (a - b) else negsuc (b - a - 1)

abbrev pub is_neg : ℤ → Bool
is_neg (pos n) = false
is_neg (negsuc n) = true

-- To split on the sign of a computed value and keep the equation.
pub data Sign (z : ℤ) : Type 0 where
  is_zero : z ≡ pos zero → Sign z
  is_positive : (n : ℕ) → z ≡ pos (suc n) → Sign z
  is_negative : (n : ℕ) → z ≡ negsuc n → Sign z

pub sign : (z : ℤ) → Sign z
sign (pos zero) = is_zero refl
sign (pos (suc n)) = is_positive n refl
sign (negsuc n) = is_negative n refl
