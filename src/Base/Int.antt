-- ===== src/Base/Int.antt =====
-- Signed integers over the native numbers, and the C++ conversions between widths.
use Prim.Native.Nat.{ℕ, ◌-◌, ◌*◌, ◌%◌, ◌<◌}
use mathlib.Core.Path.{◌≡◌}
use native.Mathlib.Omega.{arith}
use native.Mathlib.Nat.{mod-eq_of_lt}
use rpp_cpp.Base.Tests.{ltb, if◌then◌else◌}

-- `negsuc n` is -(n + 1).
pub data ℤ : Type 0 where
  pos : ℕ → ℤ
  negsuc : ℕ → ℤ

-- The bit pattern of an integer in a word of 2 * half values.
abbrev pub pattern_of : ℕ → ℤ → ℕ
pattern_of half (pos n) = n % (2 * half)
pattern_of half (negsuc n) = 2 * half - 1 - n % (2 * half)

-- The signed integer that a bit pattern stands for, in two's complement.
abbrev pub signed : ℕ → ℕ → ℤ
signed half p = if ltb p half then pos p else negsuc (2 * half - 1 - p)

-- `static_cast` to the signed type that holds -half to half - 1.
abbrev pub wrap : ℕ → ℤ → ℤ
wrap half z = signed half (pattern_of half z)

-- The values of that type.
abbrev pub Fits : ℕ → ℤ → Type 0
Fits half (pos n) = n < half
Fits half (negsuc n) = n < half

small : (n half : ℕ) → n < half → n < 2 * half
small n half h = omega arith

pub wrap-of-Fits : (half : ℕ) (z : ℤ) → Fits half z → wrap half z ≡ z
wrap-of-Fits half (pos n) h = ground (arith, mod-eq_of_lt (small n half h))
wrap-of-Fits half (negsuc n) h = ground (arith, mod-eq_of_lt (small n half h))

pub wrap-Fits : (half : ℕ) (z : ℤ) → 0 < half → Fits half (wrap half z)
wrap-Fits half (pos n) h = grind arith
wrap-Fits half (negsuc n) h = grind arith
