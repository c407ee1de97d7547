-- ===== src/Meaning.antt =====
-- What an integer instruction of LLVM means, stated on its own and over the unsigned patterns of `w`
-- bits: the specification that the analyses and the interpreter are held against. `none` is poison or
-- undefined behaviour.
use clunk.Base.{
  ℕ, ◌+◌, ◌-◌, ◌*◌, ◌/◌, ◌%◌, ◌^◌, Bool, false, not, if◌then◌else◌, ◌==◌, ltb, leb, bit_and, bit_or,
  bit_xor, Option, some, none,
}
use clunk.Ir.Opcode.{Opcode}
use clunk.Ir.Predicate.{CmpPredicate}

-- `x` as a signed number, moved up by `2 ^ (w - 1)` so that it stays a natural number.
abbrev pub signed_rank : ℕ → ℕ → ℕ
signed_rank w x = (x + 2 ^ (w - 1)) % 2 ^ w

-- The copies of the sign bit that a shift to the right or an extension brings in.
abbrev pub sign_fill : ℕ → ℕ → ℕ → ℕ
sign_fill w x fill = if ltb x (2 ^ (w - 1)) then 0 else fill

unfoldable pub binary_meaning : Opcode → ℕ → ℕ → ℕ → Option ℕ
binary_meaning Opcode.add w x y = some ((x + y) % 2 ^ w)
binary_meaning Opcode.sub w x y = some ((x + (2 ^ w - y)) % 2 ^ w)
binary_meaning Opcode.mul w x y = some ((x * y) % 2 ^ w)
binary_meaning Opcode.udiv w x y = if y == 0 then none else some (x / y)
binary_meaning Opcode.urem w x y = if y == 0 then none else some (x % y)
binary_meaning Opcode.and w x y = some (bit_and x y)
binary_meaning Opcode.or w x y = some (bit_or x y)
binary_meaning Opcode.xor w x y = some (bit_xor x y)
binary_meaning Opcode.shl w x y = if ltb y w then some ((x * 2 ^ y) % 2 ^ w) else none
binary_meaning Opcode.lshr w x y = if ltb y w then some (x / 2 ^ y) else none
binary_meaning Opcode.ashr w x y =
    if ltb y w then some (x / 2 ^ y + sign_fill w x (2 ^ w - 2 ^ (w - y))) else none
binary_meaning _ w x y = none

-- From `w` bits to `v` bits.
unfoldable pub cast_meaning : Opcode → ℕ → ℕ → ℕ → Option ℕ
cast_meaning Opcode.trunc w v x = some (x % 2 ^ v)
cast_meaning Opcode.zext w v x = some x
cast_meaning Opcode.sext w v x = some (x + sign_fill w x (2 ^ v - 2 ^ w))
cast_meaning _ w v x = none

unfoldable pub icmp_meaning : CmpPredicate → ℕ → ℕ → ℕ → Bool
icmp_meaning CmpPredicate.eq w x y = x == y
icmp_meaning CmpPredicate.ne w x y = not (x == y)
icmp_meaning CmpPredicate.ugt w x y = ltb y x
icmp_meaning CmpPredicate.uge w x y = leb y x
icmp_meaning CmpPredicate.ult w x y = ltb x y
icmp_meaning CmpPredicate.ule w x y = leb x y
icmp_meaning CmpPredicate.sgt w x y = ltb (signed_rank w y) (signed_rank w x)
icmp_meaning CmpPredicate.sge w x y = leb (signed_rank w y) (signed_rank w x)
icmp_meaning CmpPredicate.slt w x y = ltb (signed_rank w x) (signed_rank w y)
icmp_meaning CmpPredicate.sle w x y = leb (signed_rank w x) (signed_rank w y)
icmp_meaning _ w x y = false
