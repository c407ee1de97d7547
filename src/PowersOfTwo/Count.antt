-- ===== src/PowersOfTwo/Count.antt =====
-- `__builtin_popcountll`: the number of ones among the 64 digits of a word.
use clunk.Base.{ℕ, zero, suc, ◌+◌, ◌^◌, ◌≤◌, ◌<◌, ◌/◌, ◌%◌, ◌≡◌, refl, arith}
use clunk.Base.Bits.{bit}
use native.Mathlib.Nat.{pow-suc}
use native.Mathlib.Decide.{dec_lt}

unfoldable pub ones_below : ℕ → ℕ → ℕ
ones_below zero x = 0
ones_below (suc n) x = x % 2 + ones_below n (x / 2)

unfoldable pub popcount : ℕ → ℕ
popcount x = ones_below 64 x

-- A number that has each one of another counts no fewer.
pub ones_below_mono :
    (n x y : ℕ) → ((i : ℕ) → i < n → bit x i ≤ bit y i) → ones_below n x ≤ ones_below n y
unfolding ones_below bit
ones_below_mono zero x y h = omega arith
ones_below_mono (suc n) x y h =
    omega
      (arith, h 0 (omega arith), ones_below_mono n (x / 2) (y / 2) (λ i p. h (suc i) (omega arith)))

-- No ones: the number is 0. One: it is a power of two.
pub ones_below-zero : (n x : ℕ) → x < 2 ^ n → ones_below n x ≡ 0 → x ≡ 0
unfolding ones_below
ones_below-zero zero x p e = omega arith
ones_below-zero (suc n) x p e =
    omega (arith, ones_below-zero n (x / 2) (omega (arith, pow-suc 2 n)) (omega arith))

pub ones_below-one : (n x : ℕ) → x < 2 ^ n → ones_below n x ≡ 1 → (k : ℕ) × (k < n) × (x ≡ 2 ^ k)
unfolding ones_below
ones_below-one zero x p e = absurd (omega arith)
ones_below-one (suc n) x p e = elim (dec_lt 0 (x % 2)) [
  | yes odd ↦ (
    0,
    omega arith,
    omega (arith, ones_below-zero n (x / 2) (omega (arith, pow-suc 2 n)) (omega arith)),
  )
  | no even ↦
      let (k, le, e') = ones_below-one n (x / 2) (omega (arith, pow-suc 2 n)) (omega arith) in
      (suc k, omega arith, omega (arith, pow-suc 2 k))
]

-- A power of two counts one.
pub ones_below-pow : (n k : ℕ) → k < n → ones_below n (2 ^ k) ≡ 1
unfolding ones_below
ones_below-pow zero k h = absurd (omega arith)
ones_below-pow (suc n) zero h = omega (arith, none_in_zero n)
  where
    none_in_zero : (n : ℕ) → ones_below n 0 ≡ 0
    none_in_zero zero = refl
    none_in_zero (suc n) = omega (arith, none_in_zero n)
ones_below-pow (suc n) (suc k) h =
    let half : 2 ^ suc k / 2 ≡ 2 ^ k = omega (arith, pow-suc 2 k) in
    rw half (omega (arith, pow-suc 2 k, ones_below-pow n k (omega arith)))
