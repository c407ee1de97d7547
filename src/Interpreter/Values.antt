-- ===== src/Interpreter/Values.antt =====
-- The arithmetic of the interpreter: `mask_unsigned`, `sign_extend`, `apply_binop` and `apply_icmp` of
-- src/Evaluator/Interpreter.cpp. An `int64_t` is its 64-bit pattern. `stoi` is the parser of the C++
-- library, with its result as a pattern of 32 bits and `none` for an exception.
use Prim.Native.String.{String}
use mathlib.Core.Option
use clunk.Base.{
  ℕ, ◌-◌, ◌/◌, ◌%◌, ◌^◌, Bool, not, ◌&&◌, ◌||◌, if◌then◌else◌, ◌==◌, ltb, leb, Option, some, none,
  List, ◌∷◌, lookup, string_key, bit_and, bit_or, bit_xor, bit_not, ◌<<◌, ◌>>◌, add64, sub64, mul64,
  is_negative, slt64, all_ones,
}
use clunk.Ir.Opcode.{Opcode}
use clunk.Ir.Predicate.{CmpPredicate, of_code}
use clunk.Ir.Function.{IrType, is_integer, bit_width, Value, Instruction}

unfoldable pub mask_unsigned : ℕ → ℕ → ℕ
mask_unsigned v bits = if bits == 0 || leb 64 bits then v else bit_and v (sub64 (1 << bits) 1)

unfoldable pub sign_extend : ℕ → ℕ → ℕ
sign_extend v bits =
    if bits == 0 || leb 64 bits
    then v
    else if not (bit_and v (1 << (bits - 1)) == 0)
    then bit_or v (bit_not (sub64 (1 << bits) 1))
    else v

-- `none` for a type that is no integer, or a null pointer where the code tests for one.
unfoldable pub integer_bit_width : Option IrType → Option ℕ
integer_bit_width none = none
integer_bit_width (some t) = if is_integer t then some (bit_width t % 2 ^ 32) else none

-- The magnitude and the negation of an `int64_t`.
abbrev pub negated : ℕ → ℕ
negated x = sub64 0 x

abbrev pub magnitude : ℕ → ℕ
magnitude x = if is_negative x then negated x else x

-- `>>` on `int64_t` keeps the sign.
unfoldable pub shift_signed : ℕ → ℕ → ℕ
shift_signed x c = if is_negative x then bit_not (bit_not x >> c) else x >> c

-- `/` and `%` on `int64_t` round to zero, and the remainder has the sign of the dividend.
unfoldable pub divide_signed : ℕ → ℕ → ℕ
divide_signed x y =
    let q = magnitude x / magnitude y in
    if is_negative x
    then (if is_negative y then q else negated q)
    else (if is_negative y then negated q else q)

unfoldable pub remainder_signed : ℕ → ℕ → ℕ
remainder_signed x y = let r = magnitude x % magnitude y in if is_negative x then negated r else r

-- Division by 0 and `INT64_MIN / -1`, which the code refuses.
abbrev pub traps : ℕ → ℕ → Bool
traps sl sr = sr == 0 || (sl == 2 ^ 63 && sr == all_ones)

-- The `switch` of `apply_binop`, before the result is brought to the width.
unfoldable pub raw_binop : Opcode → ℕ → ℕ → Option ℕ
raw_binop Opcode.add ul ur = some (add64 ul ur)
raw_binop Opcode.sub ul ur = some (sub64 ul ur)
raw_binop Opcode.mul ul ur = some (mul64 ul ur)
raw_binop Opcode.and ul ur = some (bit_and ul ur)
raw_binop Opcode.or ul ur = some (bit_or ul ur)
raw_binop Opcode.xor ul ur = some (bit_xor ul ur)
raw_binop Opcode.shl ul ur = some (ul << bit_and ur 63)
raw_binop Opcode.lshr ul ur = some (ul >> bit_and ur 63)
raw_binop Opcode.ashr ul ur = some (shift_signed ul (bit_and ur 63))
raw_binop Opcode.udiv ul ur = if ur == 0 then none else some (ul / ur)
raw_binop Opcode.urem ul ur = if ur == 0 then none else some (ul % ur)
raw_binop Opcode.sdiv ul ur = if traps ul ur then none else some (divide_signed ul ur)
raw_binop Opcode.srem ul ur = if traps ul ur then none else some (remainder_signed ul ur)
raw_binop _ ul ur = none

unfoldable pub apply_binop : Opcode → ℕ → ℕ → Option IrType → Option ℕ
apply_binop op lhs rhs result_type =
    let bits = Option.get_or (integer_bit_width result_type) 64 in
    Option.map (λ res. sign_extend res bits) (raw_binop op lhs rhs)

-- The width of the first operand, 64 where it is missing or no integer.
unfoldable pub compared_width : List (Option Value) → ℕ
compared_width (some v ∷ _) = Option.get_or (integer_bit_width v.type) 64
compared_width _ = 64

unfoldable pub compare_values : CmpPredicate → ℕ → ℕ → ℕ → ℕ → Option Bool
compare_values CmpPredicate.eq sl sr ul ur = some (sl == sr)
compare_values CmpPredicate.ne sl sr ul ur = some (not (sl == sr))
compare_values CmpPredicate.ugt sl sr ul ur = some (ltb ur ul)
compare_values CmpPredicate.uge sl sr ul ur = some (leb ur ul)
compare_values CmpPredicate.ult sl sr ul ur = some (ltb ul ur)
compare_values CmpPredicate.ule sl sr ul ur = some (leb ul ur)
compare_values CmpPredicate.sgt sl sr ul ur = some (slt64 sr sl)
compare_values CmpPredicate.sge sl sr ul ur = some (not (slt64 sl sr))
compare_values CmpPredicate.slt sl sr ul ur = some (slt64 sl sr)
compare_values CmpPredicate.sle sl sr ul ur = some (not (slt64 sr sl))
compare_values _ sl sr ul ur = none

-- The cast to the enumeration keeps the lowest byte; a number that names no predicate takes the default.
unfoldable pub apply_icmp : (String → Option ℕ) → Instruction → ℕ → ℕ → Option ℕ
apply_icmp stoi inst lhs rhs =
    let bits = compared_width inst.operands in
    elim (lookup "pred" inst.metadata) [
      | none ↦ none
      | some text ↦ elim (stoi text) [
        | none ↦ none
        | some n ↦ elim (of_code (n % 2 ^ 8)) [
          | none ↦ none
          | some p ↦
              Option.map (λ result. if result then 1 else 0)
                (compare_values p lhs rhs (mask_unsigned lhs bits) (mask_unsigned rhs bits))
        ]
      ]
    ]
