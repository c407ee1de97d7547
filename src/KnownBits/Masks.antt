-- ===== src/KnownBits/Masks.antt =====
-- The digits of masks and complements, and the set of values that a `KnownBits` stands for.
use clunk.Base.{
  ℕ, zero, suc, ◌+◌, ◌-◌, ◌*◌, ◌^◌, ◌≤◌, ◌<◌, ◌≡◌, refl, bit_not, ◌<<◌, all_ones, arith,
}
use clunk.Base.Fields.{bit-shl_above}
use native.Mathlib.Decide.{dec_lt}
use clunk.Base.Bits.{
  bit, bit-le-one, bit-bit_xor, bit_ext, bit_beyond, bit-shl_below, bit_mask_below,
}
use native.Mathlib.Nat.{one-le-pow, pow-le-pow_right, mod-eq_of_lt}
use clunk.KnownBits.Lattice.{KnownBits, mask_for_width}

pub pow-le-64 : (w : ℕ) → w ≤ 64 → 2 ^ w ≤ 2 ^ 64
pow-le-64 w h = pow-le-pow_right (omega arith) h

pub pow-half : (w : ℕ) → w < 64 → 2 ^ w ≤ 2 ^ 63
pow-half w h = pow-le-pow_right (omega arith) {j = 63} (omega arith)

-- A single bit shifted into place does not wrap.
pub single_bit : (n : ℕ) → n < 64 → (1 << n) ≡ 2 ^ n
single_bit n h = omega (arith, pow-half n h, mod-eq_of_lt {n = 1 * 2 ^ n} {m = 2 ^ 64})

pub mask_for_width_lem : (w : ℕ) → w ≤ 64 → mask_for_width w ≡ 2 ^ w - 1
unfolding mask_for_width
mask_for_width_lem zero h = refl
mask_for_width_lem (suc w) h = elim (dec_lt (suc w) 64) [
  | yes below ↦ ground (
    arith,
    pow-half (suc w) below,
    one-le-pow (suc w) 2,
    mod-eq_of_lt {n = 1 * 2 ^ suc w} {m = 2 ^ 64},
  )
  | no full ↦ let e : suc w ≡ 64 = omega arith in rw e refl
]

pub bit_mask : (w i : ℕ) → w ≤ 64 → i < w → bit (mask_for_width w) i ≡ 1
bit_mask w i h p = rw (mask_for_width_lem w h) (bit_mask_below w i p)

pub bit_mask_above : (w i : ℕ) → w ≤ 64 → w ≤ i → bit (mask_for_width w) i ≡ 0
bit_mask_above w i h p =
    rw (mask_for_width_lem w h) (bit_beyond w (2 ^ w - 1) i (omega (arith, one-le-pow w 2)) p)

pub bit-bit_not : (x i : ℕ) → i < 64 → bit (bit_not x) i + bit x i ≡ 1
bit-bit_not x i h = omega (arith, bit-bit_xor x all_ones i, bit_mask_below 64 i h, bit-le-one x i)

pub mask-complement : (w : ℕ) → w ≤ 64 → bit_not (mask_for_width w) ≡ (2 ^ (64 - w) - 1) * 2 ^ w
mask-complement w h = bit_ext _ _ λ i. elim (dec_lt i w) [
  | yes p ↦ omega (
    arith,
    bit-bit_not (mask_for_width w) i (omega arith),
    bit_mask w i h p,
    bit-shl_below w (2 ^ (64 - w) - 1) i p,
  )
  | no p ↦ elim (dec_lt i 64) [
    | yes q ↦ omega (
      arith,
      bit-bit_not (mask_for_width w) i q,
      bit_mask_above w i h (omega arith),
      bit-shl_above w (2 ^ (64 - w) - 1) i (omega arith),
      bit_mask_below (64 - w) (i - w) (omega arith),
    )
    | no q ↦ omega (
      arith,
      bit-bit_xor (mask_for_width w) all_ones i,
      bit_mask_above w i h (omega arith),
      bit_beyond 64 all_ones i (omega arith) (omega arith),
      bit-shl_above w (2 ^ (64 - w) - 1) i (omega arith),
      bit_beyond (64 - w) (2 ^ (64 - w) - 1) (i - w) (omega (arith, one-le-pow (64 - w) 2))
          (omega arith),
    )
  ]
]

-- `x` is one of the values that `kb` describes: it fits the width and agrees with every known bit. No
-- bit outside the width is claimed to be 0.
pub record Holds (kb : KnownBits) (x : ℕ) : Type 0 where
  pub within : x < 2 ^ kb.width
  pub clean : (i : ℕ) → kb.width ≤ i → bit kb.zero i ≡ 0
  pub zeros : (i : ℕ) → bit kb.zero i + bit x i ≤ 1
  pub ones : (i : ℕ) → bit kb.one i ≤ bit x i
