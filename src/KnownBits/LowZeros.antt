-- ===== src/KnownBits/LowZeros.antt =====
-- Counting the low known zeros of an operand, and what they say of its value.
use clunk.Base.{
  ℕ, zero, suc, ◌+◌, ◌-◌, ◌*◌, ◌^◌, ◌%◌, ◌≤◌, ◌<◌, ◌≡◌, sym, ◌∙◌, ap, false, ◌==◌, ltb, bit_and,
  ◌<<◌, arith, inl, inr, Bool-cases,
}
use clunk.Base.Bits.{bit, bit-le-one, bit-zero, mod-zero_of_bits, bits_of_mod-zero, bit_and_single}
use clunk.Base.Fields.{pow_split, pow_add}
use native.Mathlib.Nat.{
  dvd_of_mod-eq-zero, mul-mod_left, add-zero, zero-add, dvd-add, dvd-sub, mul-dvd-mul,
  mod-eq-zero_of_dvd, dvd_trans,
}
use native.Mathlib.Decide.{dec_lt}
use clunk.KnownBits.Lattice.{KnownBits, mask_for_width, unknown}
use clunk.KnownBits.Transfer.{count_zeros, trailing_known_zeros, low_zeros}
use clunk.KnownBits.Masks.{bit_mask_above, single_bit, Holds}

-- What counting from `n` finds: known zeros without a gap.
pub record ZerosBelow (kb : KnownBits) (bound k : ℕ) : Type 0 where
  pub le_bound : k ≤ bound
  pub all_zero : (i : ℕ) → i < k → bit kb.zero i ≡ 1

pub bit_test : (z n : ℕ) → n < 64 → (bit_and z (1 << n) == 0) ≡ false → bit z n ≡ 1
bit_test z n h t =
    let picked : bit_and z (1 << n) ≡ bit z n * 2 ^ n = rw (single_bit n h) (bit_and_single n z) in
    elim (dec_lt 0 (bit z n)) [
      | yes p ↦ omega (arith, bit-le-one z n)
      | no p ↦
          let e : bit z n ≡ 0 = omega arith in
          let gone : bit_and z (1 << n) ≡ 0 = picked ∙ rw e (omega arith) in absurd (ground arith)
    ]

count_zeros-ZerosBelow :
    (kb : KnownBits) (left n : ℕ)
    → n + left ≤ 64
    → ZerosBelow kb n n
    → ZerosBelow kb (n + left) (count_zeros kb left n)
unfolding count_zeros
count_zeros-ZerosBelow kb zero n h z = rw add-zero z
count_zeros-ZerosBelow kb (suc left) n h z = elim (Bool-cases (bit_and kb.zero (1 << n) == 0)) [
  | inl stop ↦ rw stop (record { le_bound = omega arith; all_zero = z.all_zero })
  | inr more ↦ rw more (
      let e : n + suc left ≡ n + 1 + left = omega arith in
      rw e (
        count_zeros-ZerosBelow kb left (n + 1) (omega arith) (record {
          le_bound = omega arith;
          all_zero = λ i p. elim (dec_lt i n) [
            | yes below ↦ z.all_zero i below
            | no top ↦ let e' : i ≡ n = omega arith in rw e' (bit_test kb.zero n (omega arith) more)
          ];
        })))
]

pub trailing-ZerosBelow :
    (kb : KnownBits) → kb.width ≤ 64 → ZerosBelow kb kb.width (trailing_known_zeros kb)
unfolding trailing_known_zeros
trailing-ZerosBelow kb h = elim (Bool-cases (kb.width == 0)) [
  | inl empty ↦ rw empty (record { le_bound = omega arith; all_zero = λ i p. absurd (omega arith) })
  | inr wide ↦ rw wide (
      rw zero-add at (
        count_zeros-ZerosBelow kb kb.width 0 (omega arith)
          (record { le_bound = omega arith; all_zero = λ i p. absurd (omega arith) })))
]

-- The value is a multiple of `2 ^ k` for the `k` zeros that are counted.
pub trailing-mod :
    (kb : KnownBits) (x k : ℕ)
    → kb.width ≤ 64
    → Holds kb x
    → k ≤ trailing_known_zeros kb
    → x % 2 ^ k ≡ 0
trailing-mod kb x k h holds le =
    mod-zero_of_bits k x
      λ i p. omega (arith, holds.zeros i, (trailing-ZerosBelow kb h).all_zero i (omega arith))

pub low_zeros-Holds :
    (w k v : ℕ) → w ≤ 64 → k ≤ w → v < 2 ^ w → v % 2 ^ k ≡ 0 → Holds (low_zeros w k) v
unfolding low_zeros unknown
low_zeros-Holds w k v h le p e = elim (Bool-cases (ltb 0 k)) [
  | inl some_zeros ↦ rw some_zeros (record {
    within = p;
    clean = λ i q. bit_mask_above k i (omega arith) (omega arith);
    zeros = λ i. elim (dec_lt i k) [
      | yes q ↦ omega (arith, bits_of_mod-zero k v i e q, bit-le-one (mask_for_width k) i)
      | no q ↦ omega (arith, bit_mask_above k i (omega arith) (omega arith), bit-le-one v i)
    ];
    ones = λ i. omega (arith, bit-zero i);
  })
  | inr no_zeros ↦ rw no_zeros (record {
    within = p;
    clean = λ i q. bit-zero i;
    zeros = λ i. omega (arith, bit-zero i, bit-le-one v i);
    ones = λ i. omega (arith, bit-zero i);
  })
]

pub add-mod-zero : (m x y : ℕ) → x % m ≡ 0 → y % m ≡ 0 → (x + y) % m ≡ 0
add-mod-zero m x y p q =
    mod-eq-zero_of_dvd m (dvd-add m (dvd_of_mod-eq-zero m p) (dvd_of_mod-eq-zero m q))

pub sub-mod-zero : (m x y : ℕ) → x % m ≡ 0 → y % m ≡ 0 → (x - y) % m ≡ 0
sub-mod-zero m x y p q =
    mod-eq-zero_of_dvd m (dvd-sub m (dvd_of_mod-eq-zero m p) (dvd_of_mod-eq-zero m q))

pub pow-mod-zero : (k w : ℕ) → k ≤ w → 2 ^ w % 2 ^ k ≡ 0
pow-mod-zero k w h =
    ap (λ (t : ℕ). t % 2 ^ k) (sym (pow_split k w h)) ∙ mul-mod_left (2 ^ (w - k)) (2 ^ k)

pub mul-mod-zero : (j k n x y : ℕ) → n ≤ j + k → x % 2 ^ j ≡ 0 → y % 2 ^ k ≡ 0 → (x * y) % 2 ^ n ≡ 0
mul-mod-zero j k n x y le p q = mod-eq-zero_of_dvd (2 ^ n) (
    dvd_trans (2 ^ n) (dvd_of_mod-eq-zero (2 ^ n) (pow-mod-zero n (j + k) le)) (
      rw pow_add (
        mul-dvd-mul (2 ^ j) (2 ^ k) (dvd_of_mod-eq-zero (2 ^ j) p) (dvd_of_mod-eq-zero (2 ^ k) q))))
