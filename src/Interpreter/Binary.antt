-- ===== src/Interpreter/Binary.antt =====
-- The wrapping operations of the interpreter against the meaning of LLVM.
use mathlib.Core.Option
use native.Mathlib.Nat.{pow-le-pow_right, one-le-pow, pow-suc, mod_self, mod-eq_of_lt}
use clunk.Base.{
  ℕ, suc, ◌+◌, ◌-◌, ◌*◌, ◌^◌, ◌%◌, ◌≤◌, ◌<◌, ◌≡◌, refl, sym, ap, ◌∙◌, Bool, true, false, some,
  bit_and, ◌<<◌, sub64, add64, mul64, arith, nat_key,
}
use clunk.Base.Bits.{bit, bit_and_single, bit-shl_below}
use clunk.Base.Fields.{pow_add}
use clunk.KnownBits.Masks.{single_bit, pow-half}
use clunk.Ir.Opcode.{Opcode}
use clunk.Ir.Function.{integer_type}
use clunk.Meaning.{binary_meaning}
use clunk.KnownBits.Exact.{extended}
use clunk.KnownBits.Extended.{extended-add, extended-sub, extended-mul}
use clunk.Interpreter.Values.{sign_extend, raw_binop, apply_binop}
use clunk.Interpreter.Casts.{sign_extend-mod, typed_width}

pub applied :
    (op : Opcode) (lhs rhs v w : ℕ)
    → w ≤ 64
    → raw_binop op lhs rhs ≡ some v
    → apply_binop op lhs rhs (some (integer_type w)) ≡ some (sign_extend v w)
unfolding apply_binop
applied op lhs rhs v w h e = rw (e, typed_width w h) refl

abbrev pub wraps : Opcode → Bool
wraps Opcode.add = true
wraps Opcode.sub = true
wraps Opcode.mul = true
wraps _ = false

-- For an addition, a subtraction or a product of sign-extended operands of `w` bits, the interpreter
-- returns a value whose low `w` bits are those that LLVM gives.
pub apply_binop-meaning :
    (op : Opcode) (w x y r : ℕ)
    → wraps op ≡ true
    → 0 < w
    → w ≤ 64
    → x < 2 ^ w
    → y < 2 ^ w
    → binary_meaning op w x y ≡ some r
    → (v : ℕ) × (apply_binop op (extended w x) (extended w y) (some (integer_type w)) ≡ some v)
      × (v % 2 ^ w ≡ r)
unfolding binary_meaning
apply_binop-meaning Opcode.add w x y r k p h a b e = (
  sign_extend (add64 (extended w x) (extended w y)) w,
  applied Opcode.add (extended w x) (extended w y) _ w h (unfold raw_binop in refl),
  sign_extend-mod w _ p h ∙ extended-add w x y h a b ∙ Option.some_inj.0 e,
)
apply_binop-meaning Opcode.sub w x y r k p h a b e = (
  sign_extend (sub64 (extended w x) (extended w y)) w,
  applied Opcode.sub (extended w x) (extended w y) _ w h (unfold raw_binop in refl),
  sign_extend-mod w _ p h ∙ extended-sub w x y h a b ∙ Option.some_inj.0 e,
)
apply_binop-meaning Opcode.mul w x y r k p h a b e = (
  sign_extend (mul64 (extended w x) (extended w y)) w,
  applied Opcode.mul (extended w x) (extended w y) _ w h (unfold raw_binop in refl),
  sign_extend-mod w _ p h ∙ extended-mul w x y h a b ∙ Option.some_inj.0 e,
)
apply_binop-meaning _ w x y r k p h a b e = absurd (cc)

-- `sign_extend` leaves the bits above the width as they are where the sign bit is clear.
keeps_above : (w : ℕ) → 0 < w → w < 64 → sign_extend (2 ^ w) w ≡ 2 ^ w
unfolding sign_extend
keeps_above w p h =
    let clear : bit (2 ^ w) (w - 1) ≡ 0 =
      ap (λ (t : ℕ). bit t (w - 1)) (omega arith) ∙ bit-shl_below w 1 (w - 1) (omega arith) in
    let masked : bit_and (2 ^ w) (1 << (w - 1)) ≡ 0 =
      ap (bit_and (2 ^ w)) (single_bit (w - 1) (omega arith))
      ∙ bit_and_single (w - 1) (2 ^ w)
      ∙ ap (λ (t : ℕ). t * 2 ^ (w - 1)) clear
      ∙ omega arith in
    ground (arith, masked)

-- A power of two below the sign bit is its own extension.
extended-pow : (w a : ℕ) → a + 1 < w → extended w (2 ^ a) ≡ 2 ^ a
unfolding extended
extended-pow w a h =
    let below : 2 ^ suc a ≤ 2 ^ (w - 1) = pow-le-pow_right (omega arith) (omega arith) in
    ground (arith, below, pow-suc 2 a, one-le-pow a 2)

-- At a width w = a + b below 64, with a and b above 1, the product of 2 ^ a and 2 ^ b wraps to 0, and the
-- interpreter, given the two in the form in which it keeps values, binds 2 ^ w, which is not 0.
pub apply_binop_overflow :
    (w a b : ℕ)
    → 1 < a
    → 1 < b
    → a + b ≡ w
    → w < 64
    → (binary_meaning Opcode.mul w (2 ^ a) (2 ^ b) ≡ some 0)
      × (apply_binop Opcode.mul (extended w (2 ^ a)) (extended w (2 ^ b)) (some (integer_type w))
          ≡ some (2 ^ w))
unfolding binary_meaning
apply_binop_overflow w a b p q e h =
    let product : 2 ^ a * 2 ^ b ≡ 2 ^ w = sym (pow_add a b) ∙ ap (λ (t : ℕ). 2 ^ t) e in
    let word : mul64 (2 ^ a) (2 ^ b) ≡ 2 ^ w =
      ap (λ (t : ℕ). t % 2 ^ 64) product ∙ mod-eq_of_lt (omega (arith, pow-half w h)) in
    (
      ap some (ap (λ (t : ℕ). t % 2 ^ w) product ∙ mod_self (2 ^ w)),
      rw (extended-pow w a (omega arith), extended-pow w b (omega arith))
          (applied Opcode.mul (2 ^ a) (2 ^ b) (2 ^ w) w (omega arith)
              (unfold raw_binop in ap some word)
            ∙ ap some (keeps_above w (omega arith) h)),
    )
