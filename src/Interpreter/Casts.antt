-- ===== src/Interpreter/Casts.antt =====
-- `sign_extend` and the casts of the interpreter against the meaning of LLVM.
use mathlib.Core.Option
use native.Mathlib.Decide.{dec_lt}
use native.Mathlib.Nat.{mod-lt, mod-eq_of_lt, one-le-pow, pow-le-pow_right}
use clunk.Base.{
  ℕ, ◌+◌, ◌-◌, ◌^◌, ◌%◌, ◌≤◌, ◌<◌, ◌≡◌, ◌≢◌, refl, sym, ap, ◌∙◌, false, leb, Option, some, bit_and,
  bit_or, bit_not, ◌<<◌, sub64, arith,
}
use clunk.Base.Bits.{bit_ext, bit-bit_or, bit-mod, bit_beyond}
use clunk.Base.Fields.{bit_and_mask}
use clunk.Ir.Opcode.{Opcode}
use clunk.Ir.Function.{IrType, integer_type, is_integer, bit_width}
use clunk.Meaning.{cast_meaning, sign_fill}
use clunk.KnownBits.Lattice.{mask_for_width}
use clunk.KnownBits.Masks.{mask_for_width_lem, pow-le-64, bit_mask, bit-bit_not}
use clunk.KnownBits.Exact.{extended, sign_bit_width, fill_above}
use clunk.KnownBits.Extended.{extended-mod, mod-mod-pow}
use clunk.KnownBits.Compare.{pow_double}
use clunk.Interpreter.Values.{mask_unsigned, sign_extend, integer_bit_width}
use clunk.Interpreter.Execute.{cast_value, zero_extended}

pub mask_below : (w : ℕ) → w < 64 → 0 < w → sub64 (1 << w) 1 ≡ mask_for_width w
mask_below w h p = unfold mask_for_width in ground arith

-- A pattern that fits the width is extended by its sign.
pub sign_extend-extended : (w x : ℕ) → 1 < w → w ≤ 64 → x < 2 ^ w → sign_extend x w ≡ extended w x
unfolding sign_extend extended
sign_extend-extended w x p h q = elim (dec_lt w 64) [
  | yes below ↦ ground (
    arith,
    mask_below w below (omega arith),
    sign_bit_width w x (omega arith) h q,
    fill_above w x h q,
    one-le-pow (w - 1) 2,
  )
  | no full ↦ let e : w ≡ 64 = omega arith in rw e (ground arith)
]

mask_and_mod : (w x : ℕ) → w ≤ 64 → bit_and x (mask_for_width w) ≡ x % 2 ^ w
mask_and_mod w x h = rw (mask_for_width_lem w h) (bit_and_mask w x)

fill_keeps_low : (w v : ℕ) → w ≤ 64 → bit_or v (bit_not (mask_for_width w)) % 2 ^ w ≡ v % 2 ^ w
fill_keeps_low w v h = bit_ext _ _ λ i. elim (dec_lt i w) [
  | yes p ↦ omega (
    arith,
    bit-mod w v i p,
    bit-mod w (bit_or v (bit_not (mask_for_width w))) i p,
    bit-bit_or v (bit_not (mask_for_width w)) i,
    bit-bit_not (mask_for_width w) i (omega arith),
    bit_mask w i h p,
  )
  | no p ↦ omega (
    arith,
    bit_beyond w (v % 2 ^ w) i (mod-lt v (one-le-pow w 2 (omega arith))) (omega arith),
    bit_beyond w (bit_or v (bit_not (mask_for_width w)) % 2 ^ w) i
        (mod-lt (bit_or v (bit_not (mask_for_width w))) (one-le-pow w 2 (omega arith)))
        (omega arith),
  )
]

-- The low digits are never changed.
pub sign_extend-mod : (w v : ℕ) → 0 < w → w ≤ 64 → sign_extend v w % 2 ^ w ≡ v % 2 ^ w
unfolding sign_extend
sign_extend-mod w v p h = elim (dec_lt w 64) [
  | yes below ↦ ground (arith, mask_below w below p, fill_keeps_low w v h)
  | no full ↦ let e : w ≡ 64 = omega arith in rw e refl
]

pub mask_unsigned-mod : (w v : ℕ) → 0 < w → w ≤ 64 → v < 2 ^ 64 → mask_unsigned v w ≡ v % 2 ^ w
unfolding mask_unsigned
mask_unsigned-mod w v p h q = elim (dec_lt w 64) [
  | yes below ↦ ground (arith, mask_below w below p, mask_and_mod w v h)
  | no full ↦ let e : w ≡ 64 = omega arith in rw e (sym (mod-eq_of_lt q))
]

pub extended-lt : (w x : ℕ) → w ≤ 64 → x < 2 ^ w → extended w x < 2 ^ 64
unfolding extended
extended-lt w x h q = ground (arith, pow-le-64 w h)

abbrev pub typed : ℕ → Option IrType
typed w = some (integer_type w)

pub typed_width : (w : ℕ) → w ≤ 64 → integer_bit_width (typed w) ≡ some w
unfolding integer_bit_width is_integer bit_width
typed_width w h = ap some (mod-eq_of_lt (omega arith))

masked : (w x : ℕ) → 0 < w → w ≤ 64 → x < 2 ^ w → mask_unsigned (extended w x) w ≡ x
masked w x p h b =
    mask_unsigned-mod w (extended w x) p h (extended-lt w x h b) ∙ extended-mod w x h b

masked_narrow :
    (w v x : ℕ) → 0 < v → v ≤ w → w ≤ 64 → x < 2 ^ w → mask_unsigned (extended w x) v ≡ x % 2 ^ v
masked_narrow w v x p le h b =
    mask_unsigned-mod v (extended w x) p (omega arith) (extended-lt w x h b)
    ∙ sym (mod-mod-pow v w (extended w x) le)
    ∙ ap (λ (t : ℕ). t % 2 ^ v) (extended-mod w x h b)

-- A pattern with a clear sign bit is its own extension.
extended_small : (v x : ℕ) → 1 < v → x < 2 ^ (v - 1) → extended v x ≡ x
unfolding extended
extended_small v x p h = ground arith

extended_twice :
    (w v x : ℕ)
    → 1 < w
    → w < v
    → v ≤ 64
    → x < 2 ^ w
    → extended w x ≡ extended v (x + sign_fill w x (2 ^ v - 2 ^ w))
unfolding extended
extended_twice w v x p lt k b = ground (
  arith,
  pow_double w (omega arith),
  pow_double v (omega arith),
  pow-le-64 v k,
  pow-le-pow_right {n = 2} (omega arith) {i = w} {j = v - 1} (omega arith),
)

zext_value :
    (w v u : ℕ) → w ≤ 64 → w < v → cast_value Opcode.zext (typed w) v u ≡ some (mask_unsigned u w)
unfolding cast_value zero_extended
zext_value w v u h lt =
    let above : leb v w ≡ false = ground arith in rw (typed_width w h) (rw above refl)

-- A cast of the interpreter gives what the cast of LLVM gives. An operand and a result of `w` bits are kept
-- sign-extended to 64 bits. The widths are above 1, and a truncation narrows and an extension widens.
pub cast_value-meaning :
    (op : Opcode) (w v x r : ℕ)
    → 1 < w
    → 1 < v
    → w ≤ 64
    → v ≤ 64
    → (op ≡ Opcode.trunc → v ≤ w)
    → (op ≢ Opcode.trunc → w < v)
    → x < 2 ^ w
    → cast_meaning op w v x ≡ some r
    → cast_value op (some (integer_type w)) v (extended w x) ≡ some (extended v r)
unfolding cast_value cast_meaning
cast_value-meaning Opcode.trunc w v x r p q h k narrow wide b e =
    let low = x % 2 ^ v in
    rw (masked_narrow w v x (omega arith) (narrow refl) h b) (
      ap some (sign_extend-extended v low q k (mod-lt x (one-le-pow v 2 (omega arith))))
      ∙ ap (λ t. Option.map (extended v) t) e)
cast_value-meaning Opcode.zext w v x r p q h k narrow wide b e =
    let lt = wide (λ t. absurd (cc)) in
    let fits =
      extended_small v x q
        (omega (arith, pow-le-pow_right {n = 2} (omega arith) {i = w} {j = v - 1} (omega arith))) in
    zext_value w v (extended w x) h lt
    ∙ ap some (masked w x (omega arith) h b ∙ sym fits)
    ∙ ap (λ t. Option.map (extended v) t) e
cast_value-meaning Opcode.sext w v x r p q h k narrow wide b e =
    ap some (extended_twice w v x p (wide (λ t. absurd (cc))) k b)
    ∙ ap (λ t. Option.map (extended v) t) e
cast_value-meaning _ w v x r p q h k narrow wide b e = absurd (cc)
