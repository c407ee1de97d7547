-- ===== src/KnownBits/Exact.antt =====
-- Fully known values: what `exact` describes, and what `signed_value` reads back.
use clunk.Base.{
  ℕ, zero, suc, ◌+◌, ◌-◌, ◌*◌, ◌/◌, ◌^◌, ◌%◌, ◌≤◌, ◌<◌, ◌≡◌, ◌∙◌, ap, true, if◌then◌else◌, ◌==◌,
  ltb, bit_and, bit_or, bit_not, ◌<<◌, arith, ==_iff,
}
use clunk.Base.Bits.{
  bit, bit-le-one, bit-bit_and, bit-bit_or, bit_ext, bit_beyond, bit-mod, bit_and_single, bit-suc,
}
use clunk.Base.Fields.{bit_and_mask, bit_or_fields, pow_split}
use native.Mathlib.Nat.{one-le-pow, mod-lt, mod-eq_of_lt, pow-suc, suc-mul}
use native.Mathlib.Decide.{dec_lt}
use clunk.KnownBits.Lattice.{KnownBits, mask_for_width, exact, is_fully_known, signed_value}
use clunk.KnownBits.Masks.{
  mask_for_width_lem, bit_mask, bit_mask_above, bit-bit_not, mask-complement, single_bit, Holds,
}

-- The description of a number holds of its low bits.
pub exact-Holds : (w v : ℕ) → w ≤ 64 → Holds (exact w v) (v % 2 ^ w)
unfolding exact
exact-Holds w v h = record {
  within = mod-lt v (one-le-pow w 2 (omega arith));
  clean = λ i p. omega (
    arith,
    bit-bit_and (bit_not (bit_and v (mask_for_width w))) (mask_for_width w) i,
    bit_mask_above w i h p,
  );
  zeros = λ i. elim (dec_lt i w) [
    | yes p ↦ omega (
      arith,
      bit-bit_and (bit_not (bit_and v (mask_for_width w))) (mask_for_width w) i,
      bit-bit_not (bit_and v (mask_for_width w)) i (omega arith),
      bit-bit_and v (mask_for_width w) i,
      bit_mask w i h p,
      bit-mod w v i p,
      bit-le-one v i,
    )
    | no p ↦ omega (
      arith,
      bit-bit_and (bit_not (bit_and v (mask_for_width w))) (mask_for_width w) i,
      bit_mask_above w i h (omega arith),
      bit-le-one (v % 2 ^ w) i,
    )
  ];
  ones = λ i. elim (dec_lt i w) [
    | yes p ↦ omega (arith, bit-bit_and v (mask_for_width w) i, bit-mod w v i p)
    | no p ↦ omega (arith, bit-bit_and v (mask_for_width w) i, bit_mask_above w i h (omega arith))
  ];
}

-- The value of a fully known description is its `one`.
pub fully_known-one :
    (kb : KnownBits) (x : ℕ) → kb.width ≤ 64 → Holds kb x → is_fully_known kb ≡ true → kb.one ≡ x
unfolding is_fully_known
fully_known-one kb x h k full = bit_ext kb.one x λ i. elim (dec_lt i kb.width) [
  | yes p ↦ omega (
    arith,
    k.zeros i,
    k.ones i,
    bit-bit_or kb.zero kb.one i,
    ap (λ (t : ℕ). bit t i) ((==_iff _ _).0 full),
    bit_mask kb.width i h p,
    bit-le-one kb.one i,
    bit-le-one kb.zero i,
    bit-le-one x i,
  )
  | no p ↦ omega (arith, k.ones i, bit_beyond kb.width x i k.within (omega arith))
]

-- The pattern of `w` bits extended to 64 by its sign, but for `i1`.
unfoldable pub extended : ℕ → ℕ → ℕ
extended w x = if w == 1 then x else if ltb x (2 ^ (w - 1)) then x else x + (2 ^ 64 - 2 ^ w)

pub mask_and : (w x : ℕ) → w ≤ 64 → x < 2 ^ w → bit_and x (mask_for_width w) ≡ x
mask_and w x h p = rw (mask_for_width_lem w h) (bit_and_mask w x ∙ mod-eq_of_lt p)

-- The top digit of a pattern says whether it lies in the upper half.
top_bit_set : (n x : ℕ) → 2 ^ n ≤ x → x < 2 ^ suc n → bit x n ≡ 1
top_bit_set zero x p q = unfold bit in omega arith
top_bit_set (suc n) x p q =
    bit-suc x n
    ∙ top_bit_set n (x / 2) (omega (arith, pow-suc 2 n)) (omega (arith, pow-suc 2 (suc n)))

pub sign_bit :
    (n x : ℕ) → n < 64 → x < 2 ^ suc n → bit_and x (1 << n) ≡ (if ltb x (2 ^ n) then 0 else 2 ^ n)
sign_bit n x h p =
    rw (single_bit n h, bit_and_single)
      (elim (dec_lt x (2 ^ n)) [
        | yes below ↦ rw (bit_beyond n x n below (omega arith)) (ground arith)
        | no above ↦ rw (top_bit_set n x (omega arith) p) (ground arith)
      ])

pub sign_bit_width :
    (w x : ℕ)
    → 0 < w
    → w ≤ 64
    → x < 2 ^ w
    → bit_and x (1 << (w - 1)) ≡ (if ltb x (2 ^ (w - 1)) then 0 else 2 ^ (w - 1))
sign_bit_width w x pos h p =
    let e : suc (w - 1) ≡ w = omega arith in sign_bit (w - 1) x (omega arith) (rw e p)

pub complement_pow : (a b : ℕ) → 1 ≤ a → (a - 1) * b ≡ a * b - b
complement_pow zero b h = absurd (omega arith)
complement_pow (suc a) b h = let e : suc a - 1 ≡ a = omega arith in rw (e, suc-mul) (omega arith)

full_width : (w : ℕ) → w ≤ 64 → ¬ (w < 64) → w ≡ 64
full_width w h n = omega arith

lowest_width : (w x : ℕ) → w ≡ 0 → x < 2 ^ w → x ≡ 0
lowest_width w x e h = omega (arith, ap (λ (t : ℕ). 2 ^ t) e)

pub fill_above :
    (w x : ℕ) → w ≤ 64 → x < 2 ^ w → bit_or x (bit_not (mask_for_width w)) ≡ x + (2 ^ 64 - 2 ^ w)
fill_above w x h p = rw (mask-complement w h) (
    bit_or_fields w (2 ^ (64 - w) - 1) x p
    ∙ omega (
      arith,
      pow_split w 64 h,
      complement_pow (2 ^ (64 - w)) (2 ^ w) (one-le-pow (64 - w) 2 (omega arith)),
    ))

-- A description whose `one` is a pattern of its width reads back as that pattern, extended.
pub signed_value-extended :
    (kb : KnownBits)
    → kb.width ≤ 64
    → kb.one < 2 ^ kb.width
    → signed_value kb ≡ extended kb.width kb.one
unfolding signed_value extended
signed_value-extended kb h p = elim (dec_lt kb.width 64) [
  | yes below ↦ ground (
    arith,
    mask_and kb.width kb.one h p,
    sign_bit_width kb.width kb.one,
    fill_above kb.width kb.one h p,
    one-le-pow (kb.width - 1) 2,
    lowest_width kb.width kb.one,
  )
  | no full ↦
      ground
        (arith, mask_and kb.width kb.one h p, ap (λ (t : ℕ). 2 ^ t) (full_width kb.width h full))
]
