-- ===== src/KnownBits/Analysis.antt =====
-- The analysis of an instruction and of a function (src/Analysis/KnownBits.cpp). `stoul` is the parser
-- of the C++ library: `none` is the exception that it throws.
use Prim.Native.String.{String}
use clunk.Base.{
  ℕ, zero, suc, ◌+◌, ◌-◌, ◌^◌, ◌%◌, Bool, true, false, not, ◌&&◌, ◌||◌, if◌then◌else◌, ◌==◌, ltb,
  Option, some, none, List, [], ◌∷◌, length, get_elem?, Dict, lookup, insert, string_key,
}
use mathlib.Core.Option
use clunk.Ir.Opcode.{Opcode, is_terminator}
use clunk.Ir.Predicate.{CmpPredicate, of_code}
use clunk.Ir.Function.{
  IrType, bit_width, is_integer, Value, as_constant_int, has_name, Instruction, BasicBlock,
  Function,
}
use clunk.KnownBits.Lattice.{
  KnownBits, unknown, exact, meet, has_conflict, is_fully_known, signed_value,
}
use clunk.KnownBits.Transfer.{
  known_bits_add_sub, known_bits_mul, known_bits_and, known_bits_or, known_bits_xor, known_bits_shl,
  known_bits_lshr, known_bits_ashr, known_bits_trunc, known_bits_zext, known_bits_sext,
  known_bits_select, known_bits_icmp,
}

abbrev pub Env : Type 0
Env = Dict String KnownBits

-- The width of an integer type, else 0.
unfoldable pub integer_width : Option IrType → ℕ
integer_width none = 0
integer_width (some t) = if is_integer t then bit_width t else 0

-- The width that an unknown operand of no integer type is given.
unfoldable pub other_width : Option IrType → ℕ
other_width none = 0
other_width (some t) = bit_width t % 2 ^ 32

abbrev pub has_integer_type : Option IrType → Bool
has_integer_type none = false
has_integer_type (some t) = is_integer t

unfoldable pub named_known_bits : String → ℕ → Env → KnownBits
named_known_bits name w env =
    if has_name name then Option.get_or (lookup name env) (unknown w) else unknown w

unfoldable pub operand_known_bits : Option Value → Env → KnownBits
operand_known_bits none env = unknown 0
operand_known_bits (some v) env =
    if has_integer_type v.type
    then elim (as_constant_int v.kind) [
      | some c ↦ exact (integer_width v.type) c
      | none ↦ named_known_bits v.name (integer_width v.type) env
    ]
    else unknown (other_width v.type)

-- The lambda `opKB`.
unfoldable pub operand_at : Instruction → ℕ → Env → ℕ → KnownBits
operand_at inst width env i = elim (get_elem? inst.operands i) [
  | none ↦ unknown width
  | some v ↦ operand_known_bits v env
]

-- The meet over the operands from `i` on, `left` of them.
unfoldable pub meet_from : Instruction → ℕ → Env → ℕ → ℕ → KnownBits → KnownBits
meet_from inst width env zero i acc = acc
meet_from inst width env (suc left) i acc =
    meet_from inst width env left (i + 1) (meet acc (operand_at inst width env i))

unfoldable pub known_bits_phi : Instruction → ℕ → Env → KnownBits
known_bits_phi inst width env =
    if length inst.operands == 0
    then unknown width
    else (record (meet_from inst width env (length inst.operands - 1) 1
        (operand_at inst width env 0)) { width = width })

module _ (stoul : String → Option ℕ) where
  -- A missing or unreadable predicate is taken for `EQ`; the casts to `unsigned` and to the enumeration
  -- keep the lowest byte.
  unfoldable pub cmp_predicate : Instruction → Option CmpPredicate
  cmp_predicate inst = elim (lookup "pred" inst.metadata) [
    | none ↦ some CmpPredicate.eq
    | some text ↦ elim (stoul text) [
      | none ↦ some CmpPredicate.eq
      | some n ↦ of_code (n % 2 ^ 32 % 2 ^ 8)
    ]
  ]

  -- The `switch` over the opcode.
  unfoldable pub transfer : Opcode → Instruction → ℕ → Env → KnownBits
  transfer Opcode.add inst w env =
      known_bits_add_sub (operand_at inst w env 0) (operand_at inst w env 1) false
  transfer Opcode.sub inst w env =
      known_bits_add_sub (operand_at inst w env 0) (operand_at inst w env 1) true
  transfer Opcode.mul inst w env =
      known_bits_mul (operand_at inst w env 0) (operand_at inst w env 1)
  transfer Opcode.and inst w env =
      known_bits_and (operand_at inst w env 0) (operand_at inst w env 1)
  transfer Opcode.or inst w env = known_bits_or (operand_at inst w env 0) (operand_at inst w env 1)
  transfer Opcode.xor inst w env =
      known_bits_xor (operand_at inst w env 0) (operand_at inst w env 1)
  transfer Opcode.shl inst w env =
      known_bits_shl (operand_at inst w env 0) (operand_at inst w env 1)
  transfer Opcode.lshr inst w env =
      known_bits_lshr (operand_at inst w env 0) (operand_at inst w env 1)
  transfer Opcode.ashr inst w env =
      known_bits_ashr (operand_at inst w env 0) (operand_at inst w env 1)
  transfer Opcode.trunc inst w env = known_bits_trunc (operand_at inst w env 0) w
  transfer Opcode.zext inst w env = known_bits_zext (operand_at inst w env 0) w
  transfer Opcode.sext inst w env = known_bits_sext (operand_at inst w env 0) w
  transfer Opcode.select inst w env =
      known_bits_select (operand_at inst w env 0) (operand_at inst w env 1)
        (operand_at inst w env 2)
  transfer Opcode.phi inst w env = known_bits_phi inst w env
  transfer Opcode.icmp inst w env =
      if ltb (length inst.operands) 2
      then unknown 1
      else known_bits_icmp (cmp_predicate inst) (operand_at inst w env 0) (operand_at inst w env 1)
  transfer _ inst w env = unknown w

  abbrev is_icmp : Opcode → Bool
  is_icmp Opcode.icmp = true
  is_icmp _ = false

  unfoldable pub compute_known_bits : Instruction → Env → KnownBits
  compute_known_bits inst env =
      if integer_width inst.type == 0 && not (is_icmp inst.opcode)
      then unknown 0
      else transfer inst.opcode inst (integer_width inst.type) env

  -- One round of the inner loop: an instruction with no name, or a terminator, is skipped.
  unfoldable pub analyse_instruction : Instruction → Env → Env
  analyse_instruction inst env =
      if not (has_name inst.name) || is_terminator inst.opcode
      then env
      else insert inst.name (compute_known_bits inst env) env

  unfoldable pub analyse_instructions : List Instruction → Env → Env
  analyse_instructions [] env = env
  analyse_instructions (inst ∷ rest) env = analyse_instructions rest (analyse_instruction inst env)

  unfoldable pub analyse_blocks : List BasicBlock → Env → Env
  analyse_blocks [] env = env
  analyse_blocks (b ∷ rest) env = analyse_blocks rest (analyse_instructions b.instrs env)

  unfoldable pub analyse_known_bits : Function → Env
  analyse_known_bits fn = analyse_blocks fn.blocks []

-- The constant that a fact pins down, as a 64-bit pattern.
unfoldable pub known_bits_constant : KnownBits → Option IrType → Option ℕ
known_bits_constant kb ty =
    if not (has_integer_type ty)
    then none
    else if has_conflict kb || not (is_fully_known kb)
    then none
    else some (signed_value kb)
