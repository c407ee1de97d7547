-- ===== src/PowersOfTwo/Sound.antt =====
-- What each classification says of the values that the known bits describe.
use clunk.Base.{
  ℕ, ◌^◌, ◌≤◌, ◌<◌, ◌≡◌, ap, true, false, ◌==◌, ==_iff, leb, arith, ◌⊎◌, inl, inr, Bool-cases,
  bit_and, bit_not,
}
use clunk.Base.Bits.{bit-bit_and, bit_beyond}
use native.Mathlib.Nat.{one-le-pow, pow-le-pow_right}
use native.Mathlib.Decide.{dec_lt}
use clunk.KnownBits.Lattice.{KnownBits, mask_for_width, has_conflict, is_fully_known}
use clunk.KnownBits.Masks.{Holds, bit_mask, bit-bit_not, pow-le-64}
use clunk.KnownBits.Exact.{fully_known-one, mask_and}
use clunk.PowersOfTwo.Count.{
  popcount, ones_below_mono, ones_below-zero, ones_below-one, ones_below-pow,
}
use clunk.PowersOfTwo.Classify.{Pow2Fact, classify_pow2}

abbrev pub IsPowerOfTwo : ℕ → Type 0
IsPowerOfTwo x = (k : ℕ) × (x ≡ 2 ^ k)

abbrev pub Says : Pow2Fact → ℕ → Type 0
Says Pow2Fact.unknown x = Unit
Says Pow2Fact.not_power_of_two x = ¬ (IsPowerOfTwo x)
Says Pow2Fact.power_of_two x = IsPowerOfTwo x
Says Pow2Fact.zero_or_power_of_two x = (x ≡ 0) ⊎ IsPowerOfTwo x

exponent_fits : (k : ℕ) → 2 ^ k < 2 ^ 64 → k < 64
exponent_fits k h = elim (dec_lt k 64) [ yes p ↦ p | no p ↦ absurd (omega (arith, powers)) ]
  where
    powers : 64 ≤ k → 2 ^ 64 ≤ 2 ^ k
    powers le = pow-le-pow_right (omega arith) le

module _ (x : ℕ) (word : x < 2 ^ 64) where
  popcount-pow : IsPowerOfTwo x → popcount x ≡ 1
  unfolding popcount
  popcount-pow (k, e) = rw e (ones_below-pow 64 k (exponent_fits k (rw e at word)))

  popcount-zero : popcount x ≡ 0 → x ≡ 0
  unfolding popcount
  popcount-zero e = ones_below-zero 64 x word e

  popcount-one : popcount x ≡ 1 → IsPowerOfTwo x
  unfolding popcount
  popcount-one e = let (k, _, p) = ones_below-one 64 x word e in (k, p)

zero-not-pow : (x : ℕ) → x ≡ 0 → ¬ (IsPowerOfTwo x)
zero-not-pow x e (k, p) = absurd (omega (arith, one-le-pow k 2))

module _ (kb : KnownBits) (x : ℕ) (wide : kb.width ≤ 64) (h : Holds kb x) where
  word : x < 2 ^ 64
  word = omega (arith, h.within, pow-le-64 kb.width wide)

  known_ones-le : popcount (bit_and kb.one (mask_for_width kb.width)) ≤ popcount x
  unfolding popcount
  known_ones-le =
      ones_below_mono 64 _ _
        λ i p. omega (arith, bit-bit_and kb.one (mask_for_width kb.width) i, h.ones i)

  le-maybe_set : popcount x ≤ popcount (bit_and (mask_for_width kb.width) (bit_not kb.zero))
  unfolding popcount
  le-maybe_set = ones_below_mono 64 _ _ λ i p. elim (dec_lt i kb.width) [
    | yes q ↦ omega (
      arith,
      bit-bit_and (mask_for_width kb.width) (bit_not kb.zero) i,
      bit_mask kb.width i wide q,
      bit-bit_not kb.zero i p,
      h.zeros i,
    )
    | no q ↦ omega (arith, bit_beyond kb.width x i h.within (omega arith))
  ]

  known-exact : is_fully_known kb ≡ true → bit_and kb.one (mask_for_width kb.width) ≡ x
  known-exact known = rw (fully_known-one kb x wide h known) (mask_and kb.width x wide h.within)

  module _ (clear : has_conflict kb ≡ false)
      (few : leb 2 (popcount (bit_and kb.one (mask_for_width kb.width))) ≡ false) where
    fully : is_fully_known kb ≡ true → Says (classify_pow2 kb) x
    unfolding classify_pow2
    fully known =
        let e = ap popcount (known-exact known) in
        elim (Bool-cases (popcount (bit_and kb.one (mask_for_width kb.width)) == 1)) [
          | inl one ↦
              rw (clear, few, known, one)
                (popcount-one x word (omega (arith, e, (==_iff _ _).0 one)))
          | inr other ↦
              rw (clear, few, known, other)
                (λ pow. absurd (ground (arith, e, popcount-pow x word pow)))
        ]

    partly : is_fully_known kb ≡ false → Says (classify_pow2 kb) x
    unfolding classify_pow2
    partly open_bits =
        let bound = le-maybe_set in
        elim (Bool-cases (popcount (bit_and (mask_for_width kb.width) (bit_not kb.zero)) == 0)) [
          | inl none_set ↦
              rw (clear, few, open_bits, none_set)
                (zero-not-pow x
                  (popcount-zero x word (omega (arith, bound, (==_iff _ _).0 none_set))))
          | inr some_set ↦
              elim (Bool-cases
                (popcount (bit_and (mask_for_width kb.width) (bit_not kb.zero)) == 1)) [
                  | inl one_set ↦
                      rw (clear, few, open_bits, some_set, one_set)
                        (zero_or_pow (omega (arith, bound, (==_iff _ _).0 one_set)))
                  | inr more ↦ rw (clear, few, open_bits, some_set, more) tt
                ]
        ]
      where
        zero_or_pow : popcount x ≤ 1 → (x ≡ 0) ⊎ IsPowerOfTwo x
        zero_or_pow le = elim (dec_lt 0 (popcount x)) [
          | yes p ↦ inr (popcount-one x word (omega arith))
          | no p ↦ inl (popcount-zero x word (omega arith))
        ]

  two_set :
      has_conflict kb ≡ false
      → leb 2 (popcount (bit_and kb.one (mask_for_width kb.width))) ≡ true
      → Says (classify_pow2 kb) x
  unfolding classify_pow2
  two_set clear two =
      let bound = known_ones-le in
      rw (clear, two) (λ pow. absurd (ground (arith, bound, popcount-pow x word pow)))

  conflicting : has_conflict kb ≡ true → Says (classify_pow2 kb) x
  unfolding classify_pow2
  conflicting conflict = rw conflict tt

-- Every classification is true of every value that the known bits describe.
pub classify_pow2_sound :
    (kb : KnownBits) (x : ℕ) → kb.width ≤ 64 → Holds kb x → Says (classify_pow2 kb) x
classify_pow2_sound kb x wide h = elim (Bool-cases (has_conflict kb)) [
  | inl conflict ↦ conflicting kb x wide h conflict
  | inr clear ↦ elim (Bool-cases (leb 2 (popcount (bit_and kb.one (mask_for_width kb.width))))) [
    | inl two ↦ two_set kb x wide h clear two
    | inr few ↦ elim (Bool-cases (is_fully_known kb)) [
      | inl known ↦ fully kb x wide h clear few known
      | inr open_bits ↦ partly kb x wide h clear few open_bits
    ]
  ]
]
