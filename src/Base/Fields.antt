-- ===== src/Base/Fields.antt =====
-- Masks and fields as arithmetic: what `&` with a mask and `|` of disjoint fields compute.
use Prim.Native.Nat.{ℕ, zero, suc, ◌+◌, ◌-◌, ◌*◌, ◌/◌, ◌%◌, ◌^◌, ◌≤◌, ◌<◌, bit_and, bit_or}
use mathlib.Core.Path.{◌≡◌, sym, ap, ◌∙◌}
use native.Mathlib.Nat.{
  pow-suc, pow-zero, add-suc, add-zero, mul-one, mul_assoc, one-le-pow, mod-eq_of_lt,
  add-mul-mod_self_right, add-mul-div_right, div-eq_of_lt, mod-lt,
}
use native.Mathlib.Decide.{dec_lt}
use native.Mathlib.Omega.{arith}
use clunk.Base.Bits.{
  bit, bit-le-one, bit-bit_and, bit-bit_or, bit_ext, bit_beyond, bit-shl_below, bit-shl, bit-mod,
  bit_mask_below, bit-shr,
}

pub pow_add : (a b : ℕ) → 2 ^ (a + b) ≡ 2 ^ a * 2 ^ b
pow_add a zero = rw (add-zero, pow-zero, mul-one)
pow_add a (suc b) = rw (add-suc, pow-suc, pow-suc, pow_add a b) (mul_assoc (2 ^ a) (2 ^ b) 2)

pub pow_split : (w n : ℕ) → w ≤ n → 2 ^ (n - w) * 2 ^ w ≡ 2 ^ n
pow_split w n h = sym (pow_add (n - w) w) ∙ ap (λ (t : ℕ). 2 ^ t) (omega arith)

-- Above the field that `bit-shl_below` clears, the digits are those of the shifted number.
pub bit-shl_above : (c x i : ℕ) → c ≤ i → bit (x * 2 ^ c) i ≡ bit x (i - c)
bit-shl_above c x i h =
    let e : i ≡ i - c + c = omega arith in ap (bit (x * 2 ^ c)) e ∙ bit-shl c x (i - c)

pub bit-mod_above : (n x i : ℕ) → n ≤ i → bit (x % 2 ^ n) i ≡ 0
bit-mod_above n x i h = bit_beyond n (x % 2 ^ n) i (mod-lt x (one-le-pow n 2 (omega arith))) h

-- `&` with the mask of `w` low bits is the remainder by `2 ^ w`.
pub bit_and_mask : (w x : ℕ) → bit_and x (2 ^ w - 1) ≡ x % 2 ^ w
bit_and_mask w x = bit_ext _ _ λ i. elim (dec_lt i w) [
  | yes p ↦
      omega
        (arith, bit-bit_and x (2 ^ w - 1) i, bit_mask_below w i p, bit-mod w x i p, bit-le-one x i)
  | no p ↦ omega (
    arith,
    bit-bit_and x (2 ^ w - 1) i,
    bit-mod_above w x i (omega arith),
    bit_beyond w (2 ^ w - 1) i (omega (arith, one-le-pow w 2)) (omega arith),
  )
]

module _ (w q r : ℕ) (fits : r < 2 ^ w) where
  fields-mod : (r + q * 2 ^ w) % 2 ^ w ≡ r
  fields-mod = add-mul-mod_self_right r q (2 ^ w) ∙ mod-eq_of_lt fits

  fields-div : (r + q * 2 ^ w) / 2 ^ w ≡ q
  fields-div =
      add-mul-div_right r q {z = 2 ^ w} (one-le-pow w 2 (omega arith))
      ∙ rw (div-eq_of_lt fits) (omega arith)

  pub bit_fields_below : (i : ℕ) → i < w → bit (r + q * 2 ^ w) i ≡ bit r i
  bit_fields_below i p = sym (bit-mod w (r + q * 2 ^ w) i p) ∙ ap (λ (t : ℕ). bit t i) fields-mod

  pub bit_fields_above : (i : ℕ) → w ≤ i → bit (r + q * 2 ^ w) i ≡ bit q (i - w)
  bit_fields_above i p =
      let e : i ≡ i - w + w = omega arith in
      ap (bit (r + q * 2 ^ w)) e
      ∙ sym (bit-shr w (r + q * 2 ^ w) (i - w))
      ∙ ap (λ (t : ℕ). bit t (i - w)) fields-div

  -- `|` of a number of `w` bits and a number shifted by `w` is their sum.
  pub bit_or_fields : bit_or r (q * 2 ^ w) ≡ r + q * 2 ^ w
  bit_or_fields = bit_ext _ _ λ i. elim (dec_lt i w) [
    | yes p ↦ omega (arith, bit-bit_or r (q * 2 ^ w) i, bit-shl_below w q i p, bit_fields_below i p)
    | no p ↦ omega (
      arith,
      bit-bit_or r (q * 2 ^ w) i,
      bit-shl_above w q i (omega arith),
      bit_beyond w r i fits (omega arith),
      bit_fields_above i (omega arith),
    )
  ]
