-- ===== src/Base/Bits.antt =====
-- The binary digits of a number, and what the bitwise operations, shifts and masks of a machine word
-- do to each of them.
mod Step
pub use Step.{bit_and_step, bit_or_step, bit_xor_step}
use Prim.Native.Nat.{ℕ, zero, suc, ◌+◌, ◌-◌, ◌*◌, ◌/◌, ◌%◌, ◌^◌, ◌≤◌, ◌<◌, min, max}
use Prim.Native.Nat.{bit_and, bit_or, bit_xor}
use mathlib.Core.Path.{◌≡◌, refl}
use mathlib.Core.Path.{ap, sym, ◌∙◌}
use native.Mathlib.Nat.{pow-suc, one-le-pow, mul_comm, mul-one, add-zero, add-suc, mod-one}
use native.Mathlib.Nat.{div-one, div-add-mod, div-div-eq-div-mul, mod-lt, mod-eq_of_lt}
use native.Mathlib.Nat.{mul-add-mod_self_left}
use native.Mathlib.Omega.{arith}

-- The digit of weight `2 ^ i`.
unfoldable pub bit : ℕ → ℕ → ℕ
bit x zero = x % 2
bit x (suc i) = bit (x / 2) i

pub bit-le-one : (x i : ℕ) → bit x i ≤ 1
unfolding bit
bit-le-one x zero = omega arith
bit-le-one x (suc i) = bit-le-one (x / 2) i

pub bit-zero : (i : ℕ) → bit 0 i ≡ 0
unfolding bit
bit-zero zero = refl
bit-zero (suc i) = bit-zero i

half-bit_and : (a b : ℕ) → bit_and a b / 2 ≡ bit_and (a / 2) (b / 2)
half-bit_and a b = omega (arith, bit_and_step a b)

half-bit_or : (a b : ℕ) → bit_or a b / 2 ≡ bit_or (a / 2) (b / 2)
half-bit_or a b = omega (arith, bit_or_step a b)

half-bit_xor : (a b : ℕ) → bit_xor a b / 2 ≡ bit_xor (a / 2) (b / 2)
half-bit_xor a b = omega (arith, bit_xor_step a b)

pub bit-bit_and : (a b i : ℕ) → bit (bit_and a b) i ≡ min (bit a i) (bit b i)
unfolding bit
bit-bit_and a b zero = omega (arith, bit_and_step a b)
bit-bit_and a b (suc i) = rw half-bit_and (bit-bit_and (a / 2) (b / 2) i)

pub bit-bit_or : (a b i : ℕ) → bit (bit_or a b) i ≡ max (bit a i) (bit b i)
unfolding bit
bit-bit_or a b zero = omega (arith, bit_or_step a b)
bit-bit_or a b (suc i) = rw half-bit_or (bit-bit_or (a / 2) (b / 2) i)

pub bit-bit_xor : (a b i : ℕ) → bit (bit_xor a b) i ≡ (bit a i + bit b i) % 2
unfolding bit
bit-bit_xor a b zero = omega (arith, bit_xor_step a b)
bit-bit_xor a b (suc i) = rw half-bit_xor (bit-bit_xor (a / 2) (b / 2) i)

bit_ext_below : (n a b : ℕ) → a ≤ n → b ≤ n → ((i : ℕ) → bit a i ≡ bit b i) → a ≡ b
unfolding bit
bit_ext_below zero a b p q h = omega arith
bit_ext_below (suc n) a b p q h =
    omega (arith, h 0, bit_ext_below n (a / 2) (b / 2) (omega arith) (omega arith) (λ i. h (suc i)))

-- Two numbers with the same digits are equal.
pub bit_ext : (a b : ℕ) → ((i : ℕ) → bit a i ≡ bit b i) → a ≡ b
bit_ext a b h = bit_ext_below (a + b) a b (omega arith) (omega arith) h

zero_of_lt_one : (x : ℕ) → x < 2 ^ 0 → x ≡ 0
zero_of_lt_one x h = omega arith

-- Beyond its width a number has the digit 0.
pub bit_beyond : (n x i : ℕ) → x < 2 ^ n → n ≤ i → bit x i ≡ 0
unfolding bit
bit_beyond zero x i p q = rw (zero_of_lt_one x p) (bit-zero i)
bit_beyond (suc n) x zero p q = absurd (omega arith)
bit_beyond (suc n) x (suc i) p q = bit_beyond n (x / 2) i (omega (arith, pow-suc 2 n)) (omega arith)

double_pow : (c x : ℕ) → x * 2 ^ suc c ≡ 2 * (x * 2 ^ c)
double_pow c x = omega (arith, ap (λ (t : ℕ). x * t) (pow-suc 2 c))

half-shl : (c x : ℕ) → x * 2 ^ suc c / 2 ≡ x * 2 ^ c
half-shl c x = omega (arith, double_pow c x)

shr-suc : (c x : ℕ) → x / 2 ^ suc c ≡ x / 2 / 2 ^ c
shr-suc c x = rw (pow-suc, mul_comm (2 ^ c) 2) (sym (div-div-eq-div-mul x 2 (2 ^ c)))

-- A left shift moves the digits up.
pub bit-shl_below : (c x i : ℕ) → i < c → bit (x * 2 ^ c) i ≡ 0
unfolding bit
bit-shl_below zero x i h = absurd (omega arith)
bit-shl_below (suc c) x zero h = omega (arith, double_pow c x)
bit-shl_below (suc c) x (suc i) h = rw half-shl (bit-shl_below c x i (omega arith))

pub bit-suc : (x i : ℕ) → bit x (suc i) ≡ bit (x / 2) i
unfolding bit
bit-suc x i = refl

pub bit-shl : (c x i : ℕ) → bit (x * 2 ^ c) (i + c) ≡ bit x i
bit-shl zero x i = rw (mul-one, add-zero)
bit-shl (suc c) x i = rw (add-suc, bit-suc, half-shl) (bit-shl c x i)

-- A right shift moves them down.
pub bit-shr : (c x i : ℕ) → bit (x / 2 ^ c) i ≡ bit x (i + c)
unfolding bit
bit-shr zero x i = rw (add-zero, div-one)
bit-shr (suc c) x i = rw (shr-suc, add-suc) (bit-shr c (x / 2) i)

mod-pow-suc : (n x : ℕ) → x % 2 ^ suc n ≡ 2 * (x / 2 % 2 ^ n) + x % 2
mod-pow-suc n x =
    let q = x / 2 / 2 ^ n in
    let r = x / 2 % 2 ^ n in
    let split : x ≡ 2 ^ suc n * q + (2 * r + x % 2) =
      omega (arith, div-add-mod (x / 2) (2 ^ n), ap (λ (t : ℕ). t * q) (pow-suc 2 n)) in
    ap (λ (t : ℕ). t % 2 ^ suc n) split
    ∙ mul-add-mod_self_left (2 ^ suc n) q (2 * r + x % 2)
    ∙ mod-eq_of_lt (omega (arith, pow-suc 2 n, mod-lt (x / 2) (one-le-pow n 2 (omega arith))))

half-mod : (n x : ℕ) → x % 2 ^ suc n / 2 ≡ x / 2 % 2 ^ n
half-mod n x = omega (arith, mod-pow-suc n x)

-- A remainder by `2 ^ n` keeps the digits below `n`.
pub bit-mod : (n x i : ℕ) → i < n → bit (x % 2 ^ n) i ≡ bit x i
unfolding bit
bit-mod zero x i h = absurd (omega arith)
bit-mod (suc n) x zero h = omega (arith, mod-pow-suc n x)
bit-mod (suc n) x (suc i) h = rw half-mod (bit-mod n (x / 2) i (omega arith))

half_mask : (n : ℕ) → (2 ^ suc n - 1) / 2 ≡ 2 ^ n - 1
half_mask n = omega (arith, pow-suc 2 n, one-le-pow n 2)

-- The mask of `n` low ones.
pub bit_mask_below : (n i : ℕ) → i < n → bit (2 ^ n - 1) i ≡ 1
unfolding bit
bit_mask_below zero i h = absurd (omega arith)
bit_mask_below (suc n) zero h = omega (arith, pow-suc 2 n, one-le-pow n 2)
bit_mask_below (suc n) (suc i) h = rw half_mask (bit_mask_below n i (omega arith))

-- The low `k` digits are zero exactly when `2 ^ k` divides the number.
pub mod-zero_of_bits : (k x : ℕ) → ((i : ℕ) → i < k → bit x i ≡ 0) → x % 2 ^ k ≡ 0
unfolding bit
mod-zero_of_bits zero x h = mod-one x
mod-zero_of_bits (suc k) x h = omega (
  arith,
  mod-pow-suc k x,
  h 0 (omega arith),
  mod-zero_of_bits k (x / 2) (λ i p. h (suc i) (omega arith)),
)

pub bits_of_mod-zero : (k x i : ℕ) → x % 2 ^ k ≡ 0 → i < k → bit x i ≡ 0
bits_of_mod-zero k x i e h = sym (bit-mod k x i h) ∙ rw e (bit-zero i)

bit_and-zero : (n a : ℕ) → a ≤ n → bit_and a 0 ≡ 0
bit_and-zero n zero h = omega (arith, bit_and_step 0 0)
bit_and-zero zero (suc a) h = absurd (omega arith)
bit_and-zero (suc n) (suc a) h =
    omega (arith, bit_and_step (suc a) 0, bit_and-zero n (suc a / 2) (omega arith))

-- A mask of one bit picks that digit.
pub bit_and_single : (n x : ℕ) → bit_and x (2 ^ n) ≡ bit x n * 2 ^ n
unfolding bit
bit_and_single zero x = omega (arith, bit_and_step x 1, bit_and-zero (x / 2) (x / 2) (omega arith))
bit_and_single (suc n) x =
    bit_and_step x (2 ^ suc n)
    ∙ rw (halved n)
        (omega (arith, bit_and_single n (x / 2), pow-suc 2 n, double_pow n (bit (x / 2) n)))
  where
    halved : (m : ℕ) → 2 ^ suc m / 2 ≡ 2 ^ m
    halved m = omega (arith, pow-suc 2 m)
