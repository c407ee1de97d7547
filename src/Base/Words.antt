-- ===== src/Base/Words.antt =====
-- `uint64_t`: a value is a number below `2 ^ 64`, and every operation that can leave that range wraps.
-- An `int64_t` is kept as its two's complement bit pattern, that is, as the `uint64_t` it casts to.
use Prim.Native.Nat.{ℕ, ◌+◌, ◌-◌, ◌*◌, ◌/◌, ◌%◌, ◌^◌, bit_xor}
use mathlib.Core.Bool.{Bool, not}
use clunk.Base.Tests.{ltb}

abbrev pub u64 : ℕ → ℕ
u64 n = n % 2 ^ 64

abbrev pub all_ones : ℕ
all_ones = 2 ^ 64 - 1

-- `~x`
abbrev pub bit_not : ℕ → ℕ
bit_not x = bit_xor x all_ones

infixl 60 ◌<<◌ ◌>>◌
-- `x << c` and `x >> c` for a count below 64; the caller shows the count.
abbrev pub ◌<<◌ : ℕ → ℕ → ℕ
x << c = u64 (x * 2 ^ c)

abbrev pub ◌>>◌ : ℕ → ℕ → ℕ
x >> c = x / 2 ^ c

-- The modulus is added before a subtraction, since `-` on ℕ stops at 0.
abbrev pub add64 : ℕ → ℕ → ℕ
add64 a b = u64 (a + b)

abbrev pub sub64 : ℕ → ℕ → ℕ
sub64 a b = u64 (a + 2 ^ 64 - b)

abbrev pub mul64 : ℕ → ℕ → ℕ
mul64 a b = u64 (a * b)

-- The sign of an `int64_t`.
abbrev pub is_negative : ℕ → Bool
is_negative a = not (ltb a (2 ^ 63))

-- The order of `int64_t`: flipping the sign bit turns it into the unsigned order.
abbrev pub biased : ℕ → ℕ
biased a = u64 (a + 2 ^ 63)

abbrev pub slt64 : ℕ → ℕ → Bool
slt64 a b = ltb (biased a) (biased b)
