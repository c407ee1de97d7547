-- ===== src/Interpreter/Shifts.antt =====
-- The logical right shift of the interpreter on a negative operand.
use native.Mathlib.Nat.{add-mul-mod_self_right, mod-eq_of_lt, one-le-pow}
use clunk.Base.{ℕ, ◌+◌, ◌-◌, ◌*◌, ◌/◌, ◌^◌, ◌%◌, ◌≤◌, ◌<◌, ◌≡◌, refl, ap, ◌∙◌, some, arith}
use clunk.Base.Fields.{pow_split}
use clunk.Ir.Opcode.{Opcode}
use clunk.Ir.Function.{integer_type}
use clunk.Meaning.{binary_meaning}
use clunk.KnownBits.Masks.{pow-half}
use clunk.KnownBits.Exact.{extended, complement_pow}
use clunk.KnownBits.Compare.{pow_double}
use clunk.Interpreter.Values.{sign_extend, raw_binop, apply_binop}
use clunk.Interpreter.Casts.{sign_extend-mod}
use clunk.Interpreter.Binary.{applied}

negative_form : (w x : ℕ) → 1 < w → 2 ^ (w - 1) ≤ x → extended w x ≡ x + (2 ^ 64 - 2 ^ w)
unfolding extended
negative_form w x p h = ground arith

halved_form :
    (w x : ℕ)
    → 1 < w
    → w < 64
    → (x + (2 ^ 64 - 2 ^ w)) / 2 ≡ x / 2 + 2 ^ (w - 1) + (2 ^ (63 - w) - 1) * 2 ^ w
halved_form w x p h = omega (
  arith,
  pow_double w (omega arith),
  pow_split w 63 (omega arith),
  complement_pow (2 ^ (63 - w)) (2 ^ w) (one-le-pow (63 - w) 2 (omega arith)),
  pow-half w h,
  one-le-pow (63 - w) 2,
)

-- On a negative operand of fewer than 64 bits, a logical right shift by 1 sets the top bit of the result,
-- where LLVM clears it: the two differ for every such operand.
pub apply_binop_negative_lshr :
    (w x : ℕ)
    → 1 < w
    → w < 64
    → 2 ^ (w - 1) ≤ x
    → x < 2 ^ w
    → (binary_meaning Opcode.lshr w x 1 ≡ some (x / 2))
      × (v : ℕ) × (apply_binop Opcode.lshr (extended w x) 1 (some (integer_type w)) ≡ some v)
      × (v % 2 ^ w ≡ x / 2 + 2 ^ (w - 1))
unfolding binary_meaning
apply_binop_negative_lshr w x p h low high = (
  ground arith,
  sign_extend (extended w x / 2) w,
  applied Opcode.lshr (extended w x) 1 (extended w x / 2) w (omega arith)
      (unfold raw_binop in refl),
  sign_extend-mod w _ (omega arith) (omega arith)
      ∙ ap (λ (t : ℕ). t / 2 % 2 ^ w) (negative_form w x p low)
      ∙ ap (λ (t : ℕ). t % 2 ^ w) (halved_form w x p h)
      ∙ add-mul-mod_self_right (x / 2 + 2 ^ (w - 1)) (2 ^ (63 - w) - 1) (2 ^ w)
      ∙ mod-eq_of_lt (omega (arith, pow_double w (omega arith))),
)
