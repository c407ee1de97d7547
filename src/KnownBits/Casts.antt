-- ===== src/KnownBits/Casts.antt =====
-- `Trunc`, `ZExt` and `SExt`.
use clunk.Base.{
  ℕ, ◌+◌, ◌-◌, ◌^◌, ◌%◌, ◌≤◌, ◌<◌, ◌≡◌, bit_and, bit_or, arith, ◌==◌, inl, inr, Bool-cases, bit_not,
}
use clunk.Base.Bits.{bit, bit-le-one, bit-bit_and, bit-bit_or, bit-mod, bit_beyond}
use native.Mathlib.Nat.{one-le-pow, mod-lt, pow-le-pow_right}
use native.Mathlib.Decide.{dec_lt}
use clunk.Meaning.{sign_fill}
use clunk.KnownBits.Lattice.{KnownBits, mask_for_width}
use clunk.KnownBits.Transfer.{known_bits_trunc, known_bits_zext, known_bits_sext}
use clunk.KnownBits.Masks.{Holds, bit_mask, bit_mask_above, bit-bit_not}
use clunk.KnownBits.Signs.{with_sign-Holds}
use clunk.KnownBits.Extends.{result-lt, result_below, result_low, result_high}

-- A truncation keeps what is known of the bits that stay.
pub trunc-Holds :
    (src : KnownBits) (v x : ℕ) → v ≤ 64 → Holds src x → Holds (known_bits_trunc src v) (x % 2 ^ v)
unfolding known_bits_trunc
trunc-Holds src v x h k = record {
  within = mod-lt x (one-le-pow v 2 (omega arith));
  clean = λ i p. omega (arith, bit-bit_and src.zero (mask_for_width v) i, bit_mask_above v i h p);
  zeros = λ i. elim (dec_lt i v) [
    | yes p ↦ omega (arith, bit-bit_and src.zero (mask_for_width v) i, bit-mod v x i p, k.zeros i)
    | no p ↦ omega (
      arith,
      bit-bit_and src.zero (mask_for_width v) i,
      bit_mask_above v i h (omega arith),
      bit-le-one (x % 2 ^ v) i,
    )
  ];
  ones = λ i. elim (dec_lt i v) [
    | yes p ↦ omega (arith, bit-bit_and src.one (mask_for_width v) i, bit-mod v x i p, k.ones i)
    | no p ↦
        omega (arith, bit-bit_and src.one (mask_for_width v) i, bit_mask_above v i h (omega arith))
  ];
}

-- The bits from `w` to `v`.
abbrev extension : ℕ → ℕ → ℕ
extension w v = bit_and (mask_for_width v) (bit_not (mask_for_width w))

module _ (w v i : ℕ) (le : w ≤ v) (wide : v ≤ 64) where
  extension_above : v ≤ i → bit (extension w v) i ≡ 0
  extension_above h = omega (
    arith,
    bit-bit_and (mask_for_width v) (bit_not (mask_for_width w)) i,
    bit_mask_above v i wide h,
  )

  extension_below : i < w → bit (extension w v) i ≡ 0
  extension_below h = omega (
    arith,
    bit-bit_and (mask_for_width v) (bit_not (mask_for_width w)) i,
    bit-bit_not (mask_for_width w) i (omega arith),
    bit_mask w i (omega arith) h,
  )

-- A zero-extension to at most 64 bits keeps what is known and adds zeros.
pub zext-Holds :
    (src : KnownBits) (v x : ℕ)
    → src.width ≤ v
    → v ≤ 64
    → Holds src x
    → Holds (known_bits_zext src v) x
unfolding known_bits_zext
zext-Holds src v x le h k = record {
  within = omega (arith, k.within, pow-le-pow_right {n = 2} (omega arith) le);
  clean = λ i p. omega (
    arith,
    bit-bit_or (bit_and src.zero (mask_for_width src.width)) (extension src.width v) i,
    bit-bit_and src.zero (mask_for_width src.width) i,
    bit_mask_above src.width i (omega arith) (omega arith),
    extension_above src.width v i le h p,
  );
  zeros = λ i. elim (dec_lt i src.width) [
    | yes p ↦ omega (
      arith,
      bit-bit_or (bit_and src.zero (mask_for_width src.width)) (extension src.width v) i,
      bit-bit_and src.zero (mask_for_width src.width) i,
      extension_below src.width v i le h p,
      k.zeros i,
    )
    | no p ↦ omega (
      arith,
      bit_beyond src.width x i k.within (omega arith),
      bit-le-one (bit_or (bit_and src.zero (mask_for_width src.width)) (extension src.width v)) i,
    )
  ];
  ones = λ i. omega (arith, bit-bit_and src.one (mask_for_width src.width) i, k.ones i);
}

sext_base :
    (src : KnownBits) (v x : ℕ)
    → src.width ≤ v
    → v ≤ 64
    → Holds src x
    → Holds
        (record {
          width = v;
          zero = bit_and src.zero (mask_for_width src.width);
          one = bit_and src.one (mask_for_width src.width);
        })
        (x + sign_fill src.width x (2 ^ v - 2 ^ src.width))
sext_base src v x le h k = record {
  within = result-lt src.width x src.width v x le k.within;
  clean = λ i p. omega (
    arith,
    bit-bit_and src.zero (mask_for_width src.width) i,
    bit_mask_above src.width i (omega arith) (omega arith),
  );
  zeros = λ i. elim (dec_lt i src.width) [
    | yes p ↦ omega (
      arith,
      bit-bit_and src.zero (mask_for_width src.width) i,
      result_below src.width x src.width v x le k.within i p,
      k.zeros i,
    )
    | no p ↦ omega (
      arith,
      bit-bit_and src.zero (mask_for_width src.width) i,
      bit_mask_above src.width i (omega arith) (omega arith),
      bit-le-one (x + sign_fill src.width x (2 ^ v - 2 ^ src.width)) i,
    )
  ];
  ones = λ i. elim (dec_lt i src.width) [
    | yes p ↦ omega (
      arith,
      bit-bit_and src.one (mask_for_width src.width) i,
      result_below src.width x src.width v x le k.within i p,
      k.ones i,
    )
    | no p ↦ omega (
      arith,
      bit-bit_and src.one (mask_for_width src.width) i,
      bit_mask_above src.width i (omega arith) (omega arith),
    )
  ];
}

-- A fact for a value is turned into one for its sign-extension to at most 64 bits.
pub sext-Holds :
    (src : KnownBits) (v x : ℕ)
    → src.width ≤ v
    → v ≤ 64
    → Holds src x
    → Holds (known_bits_sext src v) (x + sign_fill src.width x (2 ^ v - 2 ^ src.width))
unfolding known_bits_sext
sext-Holds src v x le h k = elim (Bool-cases (src.width == 0)) [
  | inl empty ↦ rw empty (sext_base src v x le h k)
  | inr some_bits ↦ rw some_bits (
      with_sign-Holds src _ x _ (extension src.width v) (ground arith) (omega arith) k
        (sext_base src v x le h k) (λ i p. extension_above src.width v i le h p)
        (λ below i. elim (dec_lt i src.width) [
          | yes p ↦ omega (
            arith,
            extension_below src.width v i le h p,
            bit-le-one (x + sign_fill src.width x (2 ^ v - 2 ^ src.width)) i,
          )
          | no p ↦ omega (
            arith,
            result_low src.width x src.width v x le k.within below i (omega arith),
            bit-le-one (extension src.width v) i,
          )
        ])
        (λ above i. elim (dec_lt i src.width) [
          | yes p ↦ omega (arith, extension_below src.width v i le h p)
          | no p ↦ elim (dec_lt i v) [
            | yes q ↦ omega (
              arith,
              result_high src.width x src.width v x le k.within above i (omega arith) q,
              bit-le-one (extension src.width v) i,
            )
            | no q ↦ omega (arith, extension_above src.width v i le h (omega arith))
          ]
        ]))
]
