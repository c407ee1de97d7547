-- ===== src/KnownBits/Signs.antt =====
-- Copies of the sign bit: `AShr` by a known count, `SExt`, and the casts that need no sign.
use clunk.Base.{
  ℕ, ◌+◌, ◌-◌, ◌*◌, ◌^◌, ◌≤◌, ◌<◌, ◌≡◌, false, bit_and, arith, ◌==◌, inl, inr, Bool-cases, ◌<<◌,
  ◌∙◌,
}
use clunk.Base.Bits.{bit, bit-bit_or, bit_beyond, bit_mask_below}
use clunk.Base.Fields.{bit_fields_below, bit_fields_above, pow_split}
use native.Mathlib.Nat.{one-le-pow, pow-le-pow_right}
use native.Mathlib.Decide.{dec_lt}
use clunk.KnownBits.Lattice.{KnownBits}
use clunk.KnownBits.Transfer.{with_sign}
use clunk.KnownBits.Masks.{Holds}
use clunk.KnownBits.Exact.{complement_pow}
use clunk.KnownBits.LowZeros.{bit_test}
use clunk.KnownBits.Bitwise.{lt_of_bits}

-- A known sign bit says in which half the value lies.
known_zero_sign :
    (src : KnownBits) (x : ℕ)
    → 0 < src.width
    → src.width ≤ 64
    → Holds src x
    → (bit_and src.zero (1 << (src.width - 1)) == 0) ≡ false
    → x < 2 ^ (src.width - 1)
known_zero_sign src x pos wide h t = lt_of_bits (src.width - 1) x λ i p. elim (dec_lt i src.width) [
  | yes q ↦
      let e : i ≡ src.width - 1 = omega arith in
      rw e
        (omega (arith, h.zeros (src.width - 1), bit_test src.zero (src.width - 1) (omega arith) t))
  | no q ↦ bit_beyond src.width x i h.within (omega arith)
]

known_one_sign :
    (src : KnownBits) (x : ℕ)
    → 0 < src.width
    → src.width ≤ 64
    → Holds src x
    → (bit_and src.one (1 << (src.width - 1)) == 0) ≡ false
    → 2 ^ (src.width - 1) ≤ x
known_one_sign src x pos wide h t = elim (dec_lt x (2 ^ (src.width - 1))) [
  | yes p ↦ absurd (
      omega (
        arith,
        h.ones (src.width - 1),
        bit_test src.one (src.width - 1) (omega arith) t,
        bit_beyond (src.width - 1) x (src.width - 1) p (omega arith),
      ))
  | no p ↦ omega arith
]

-- Adding the extension to the side that holds the sign keeps a description true.
pub with_sign-Holds :
    (src kb : KnownBits) (x r extension : ℕ)
    → 0 < src.width
    → src.width ≤ 64
    → Holds src x
    → Holds kb r
    → ((i : ℕ) → kb.width ≤ i → bit extension i ≡ 0)
    → (x < 2 ^ (src.width - 1) → (i : ℕ) → bit extension i + bit r i ≤ 1)
    → (2 ^ (src.width - 1) ≤ x → (i : ℕ) → bit extension i ≤ bit r i)
    → Holds (with_sign src (1 << (src.width - 1)) extension kb) r
unfolding with_sign
with_sign-Holds src kb x r ext pos wide h k clean low high =
    elim (Bool-cases (bit_and src.zero (1 << (src.width - 1)) == 0)) [
      | inr zero_sign ↦
          let below = known_zero_sign src x pos wide h zero_sign in
          rw zero_sign (record {
            within = k.within;
            clean = λ i p. omega (arith, k.clean i p, clean i p, bit-bit_or kb.zero ext i);
            zeros = λ i. omega (arith, k.zeros i, low below i, bit-bit_or kb.zero ext i);
            ones = k.ones;
          })
      | inl no_zero ↦ elim (Bool-cases (bit_and src.one (1 << (src.width - 1)) == 0)) [
        | inr one_sign ↦
            let above = known_one_sign src x pos wide h one_sign in
            rw (no_zero, one_sign)
              (record {
                within = k.within;
                clean = k.clean;
                zeros = k.zeros;
                ones = λ i. omega (arith, k.ones i, high above i, bit-bit_or kb.one ext i);
              })
        | inl no_one ↦ rw (no_zero, no_one) k
      ]
    ]

-- A number of `cut` bits with the bits from `cut` to `v` filled or not.
module _ (cut v q : ℕ) (le : cut ≤ v) (fits : q < 2 ^ cut) where
  filled-form : q + (2 ^ v - 2 ^ cut) ≡ q + (2 ^ (v - cut) - 1) * 2 ^ cut
  filled-form = omega (
    arith,
    pow_split cut v le,
    complement_pow (2 ^ (v - cut)) (2 ^ cut) (one-le-pow (v - cut) 2 (omega arith)),
  )

  pub filled_below : (i : ℕ) → i < cut → bit (q + (2 ^ v - 2 ^ cut)) i ≡ bit q i
  filled_below i p = rw filled-form (bit_fields_below cut (2 ^ (v - cut) - 1) q fits i p)

  pub filled_between : (i : ℕ) → cut ≤ i → i < v → bit (q + (2 ^ v - 2 ^ cut)) i ≡ 1
  filled_between i p s = rw filled-form (
      bit_fields_above cut (2 ^ (v - cut) - 1) q fits i p
      ∙ bit_mask_below (v - cut) (i - cut) (omega arith))

  pub filled-lt : q + (2 ^ v - 2 ^ cut) < 2 ^ v
  filled-lt = omega (arith, pow_le)
    where
      pow_le : 2 ^ cut ≤ 2 ^ v
      pow_le = pow-le-pow_right (omega arith) le
