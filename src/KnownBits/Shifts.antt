-- ===== src/KnownBits/Shifts.antt =====
-- `Shl`, `LShr` and `AShr` by a known count, and the extensions and truncations.
use clunk.Base.{
  ℕ, ◌+◌, ◌-◌, ◌*◌, ◌/◌, ◌^◌, ◌%◌, ◌≤◌, ◌<◌, ◌≡◌, refl, Bool, true, false, bit_and, bit_or,
  if◌then◌else◌, arith, ltb, inl, inr, Bool-cases, ◌<<◌, ◌>>◌, ap, ◌∙◌, bit_not,
}
use clunk.Base.Bits.{
  bit, bit-le-one, bit-bit_and, bit-bit_or, bit-mod, bit_beyond, bit-shl_below, bit-shr,
}
use clunk.Base.Fields.{bit-shl_above}
use native.Mathlib.Nat.{one-le-pow, mod-lt, div-le_self}
use native.Mathlib.Decide.{dec_lt}
use mathlib.Core.Path.{subst}
use clunk.Base.{some, none}
use clunk.Ir.Opcode.{Opcode}
use clunk.Meaning.{binary_meaning}
use clunk.KnownBits.Lattice.{KnownBits, mask_for_width, signed_value, is_fully_known}
use clunk.KnownBits.Transfer.{is_bad_count, known_bits_shl, known_bits_lshr, high_bits}
use clunk.KnownBits.Masks.{Holds, bit_mask, bit_mask_above, bit-bit_not, pow-half}
use clunk.KnownBits.Exact.{extended, fully_known-one, signed_value-extended}
use clunk.KnownBits.Bitwise.{unknown-Holds, lt_of_bits}

-- A defined result is the value behind its guard.
pub guarded {ℓ} : {A : Type ℓ} (b : Bool) (v r : A) → (if b then some v else none) ≡ some r → v ≡ r
guarded true v r h = cc
guarded false v r h = cc

pub guard_true {ℓ} :
    {A : Type ℓ} (b : Bool) (v r : A) → (if b then some v else none) ≡ some r → b ≡ true
guard_true true v r h = refl
guard_true false v r h = cc

-- A small non-negative reading of a pattern is the pattern itself.
extended_small : (w y : ℕ) → w ≤ 64 → extended w y < 64 → extended w y ≡ y
unfolding extended
extended_small w y h small = elim (dec_lt w 64) [
  | yes p ↦ ground (arith, pow-half w p)
  | no p ↦ let e : w ≡ 64 = omega arith in ground (arith, ap (λ (t : ℕ). 2 ^ t) e)
]

good_count :
    (lhs rhs : KnownBits)
    → is_bad_count lhs rhs ≡ false
    → (is_fully_known rhs ≡ true) × (signed_value rhs < lhs.width)
unfolding is_bad_count
good_count lhs rhs h = ground arith

bit_shl_word : (x c i : ℕ) → i < 64 → bit (x << c) i ≡ bit (x * 2 ^ c) i
bit_shl_word x c i h = bit-mod 64 (x * 2 ^ c) i h

pub bit-high_bits :
    (w c i : ℕ) → w ≤ 64 → c ≤ w → i < w → bit (high_bits w c) i ≡ (if ltb i (w - c) then 0 else 1)
unfolding high_bits
bit-high_bits w c i h le p = elim (dec_lt i (w - c)) [
  | yes q ↦ ground (
    arith,
    bit-bit_and (mask_for_width w) (bit_not (mask_for_width (w - c))) i,
    bit-bit_not (mask_for_width (w - c)) i,
    bit_mask (w - c) i,
    bit_mask w i h p,
  )
  | no q ↦ ground (
    arith,
    bit-bit_and (mask_for_width w) (bit_not (mask_for_width (w - c))) i,
    bit-bit_not (mask_for_width (w - c)) i,
    bit_mask_above (w - c) i,
    bit_mask w i h p,
  )
]

pub bit-high_bits_above : (w c i : ℕ) → w ≤ 64 → w ≤ i → bit (high_bits w c) i ≡ 0
unfolding high_bits
bit-high_bits_above w c i h p = omega (
  arith,
  bit-bit_and (mask_for_width w) (bit_not (mask_for_width (w - c))) i,
  bit_mask_above w i h p,
)

module _ (lhs rhs : KnownBits) (x y : ℕ) (wide : lhs.width ≤ 64) (same : rhs.width ≡ lhs.width)
    (hx : Holds lhs x) (hy : Holds rhs y) where
  pub count_lem : is_bad_count lhs rhs ≡ false → (signed_value rhs ≡ y) × (y < lhs.width)
  count_lem good =
      let (known, small) = good_count lhs rhs good in
      let one_y = fully_known-one rhs y (omega arith) hy known in
      let reads : signed_value rhs ≡ extended rhs.width y =
        signed_value-extended rhs (omega arith) (rw one_y hy.within)
        ∙ ap (extended rhs.width) one_y in
      let small_y : extended rhs.width y ≡ y =
        extended_small rhs.width y (omega arith) (omega (arith, reads)) in
      (reads ∙ small_y, omega (arith, reads, small_y))

  shl_known :
      (c : ℕ)
      → c < lhs.width
      → Holds
          (record {
            width = lhs.width;
            zero = bit_and (bit_or (lhs.zero << c) (mask_for_width c)) (mask_for_width lhs.width);
            one = bit_and (lhs.one << c) (mask_for_width lhs.width);
          })
          ((x * 2 ^ c) % 2 ^ lhs.width)
  shl_known c p = record {
    within = mod-lt (x * 2 ^ c) (one-le-pow lhs.width 2 (omega arith));
    clean = λ i h. omega (
      arith,
      bit-bit_and (bit_or (lhs.zero << c) (mask_for_width c)) (mask_for_width lhs.width) i,
      bit_mask_above lhs.width i wide h,
    );
    zeros = λ i. elim (dec_lt i lhs.width) [
      | yes q ↦ ground (
        arith,
        bit-bit_and (bit_or (lhs.zero << c) (mask_for_width c)) (mask_for_width lhs.width) i,
        bit-bit_or (lhs.zero << c) (mask_for_width c) i,
        bit_mask_above c i,
        bit_shl_word lhs.zero c i,
        bit-mod lhs.width (x * 2 ^ c) i q,
        bit-shl_below c x i,
        bit-shl_above c x i,
        bit-shl_above c lhs.zero i,
        hx.zeros (i - c),
        bit-le-one (bit_and (bit_or (lhs.zero << c) (mask_for_width c)) (mask_for_width lhs.width))
            i,
      )
      | no q ↦ omega (
        arith,
        bit-bit_and (bit_or (lhs.zero << c) (mask_for_width c)) (mask_for_width lhs.width) i,
        bit_mask_above lhs.width i wide (omega arith),
        bit-le-one ((x * 2 ^ c) % 2 ^ lhs.width) i,
      )
    ];
    ones = λ i. elim (dec_lt i lhs.width) [
      | yes q ↦ ground (
        arith,
        bit-bit_and (lhs.one << c) (mask_for_width lhs.width) i,
        bit_shl_word lhs.one c i,
        bit-mod lhs.width (x * 2 ^ c) i q,
        bit-shl_below c lhs.one i,
        bit-shl_above c x i,
        bit-shl_above c lhs.one i,
        hx.ones (i - c),
      )
      | no q ↦ omega (
        arith,
        bit-bit_and (lhs.one << c) (mask_for_width lhs.width) i,
        bit_mask_above lhs.width i wide (omega arith),
      )
    ];
  }

  lshr_known :
      (c : ℕ)
      → c < lhs.width
      → Holds
          (record {
            width = lhs.width;
            zero = bit_or (lhs.zero >> c) (high_bits lhs.width c);
            one = lhs.one >> c;
          })
          (x / 2 ^ c)
  lshr_known c p = record {
    within =
        lt_of_bits lhs.width (x / 2 ^ c)
          λ i h. bit-shr c x i ∙ bit_beyond lhs.width x (i + c) hx.within (omega arith);
    clean = λ i h. omega (
      arith,
      bit-bit_or (lhs.zero >> c) (high_bits lhs.width c) i,
      bit-high_bits_above lhs.width c i wide h,
      bit-shr c lhs.zero i,
      hx.clean (i + c) (omega arith),
    );
    zeros = λ i. elim (dec_lt i lhs.width) [
      | yes q ↦ ground (
        arith,
        bit-bit_or (lhs.zero >> c) (high_bits lhs.width c) i,
        bit-high_bits lhs.width c i,
        bit-shr c x i,
        bit-shr c lhs.zero i,
        hx.zeros (i + c),
        bit_beyond lhs.width x (i + c),
        hx.within,
        bit-le-one (lhs.zero >> c) i,
      )
      | no q ↦ omega (
        arith,
        bit-bit_or (lhs.zero >> c) (high_bits lhs.width c) i,
        bit-high_bits_above lhs.width c i wide (omega arith),
        bit-shr c x i,
        bit-shr c lhs.zero i,
        hx.zeros (i + c),
      )
    ];
    ones = λ i. omega (arith, bit-shr c x i, bit-shr c lhs.one i, hx.ones (i + c));
  }

  -- Where two facts of one width, at most 64, hold of `x` and `y` and the left shift of `x` by `y` is not
  -- poison, the fact for `shl` holds of its result.
  pub shl-Holds :
      (r : ℕ) → binary_meaning Opcode.shl lhs.width x y ≡ some r → Holds (known_bits_shl lhs rhs) r
  unfolding known_bits_shl binary_meaning
  shl-Holds r e =
      let v = guarded _ _ _ e in
      elim (Bool-cases (is_bad_count lhs rhs)) [
        | inl bad ↦ rw bad (
            unknown-Holds lhs.width r
              (rw (← v) (mod-lt (x * 2 ^ y) (one-le-pow lhs.width 2 (omega arith)))))
        | inr good ↦
            let (c_eq, small) = count_lem good in
            rw (good, c_eq) (subst (Holds _) v (shl_known y small))
      ]

  -- Where two facts of one width, at most 64, hold of `x` and `y` and the logical right shift is not
  -- poison, the fact for `lshr` holds of its result.
  pub lshr-Holds :
      (r : ℕ)
      → binary_meaning Opcode.lshr lhs.width x y ≡ some r
      → Holds (known_bits_lshr lhs rhs) r
  unfolding known_bits_lshr binary_meaning
  lshr-Holds r e =
      let v = guarded _ _ _ e in
      elim (Bool-cases (is_bad_count lhs rhs)) [
        | inl bad ↦
            rw bad (unknown-Holds lhs.width r (omega (arith, v, div-le_self x (2 ^ y), hx.within)))
        | inr good ↦
            let (c_eq, small) = count_lem good in
            rw (good, c_eq) (subst (Holds _) v (lshr_known y small))
      ]
