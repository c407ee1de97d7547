-- ===== src/Reduce/Urem.antt =====
-- `simplify_pow2_strength_reduce` (src/IR/StrengthReduce.cpp). Its map `binding` stays empty, so that
-- `resolve` gives its argument. `fresh` is the address that the allocator hands out next, `stoul` and
-- `to_string` are the functions of the C++ library.
use Prim.Native.String.{String, ◌++◌ as append}
use mathlib.Core.Option
use clunk.Base.{
  ℕ, ◌+◌, ◌%◌, ◌^◌, Bool, true, false, ◌&&◌, ◌||◌, if◌then◌else◌, ◌==◌, Option, some, none, List,
  [], ◌∷◌, ◌++◌, length, get_elem?,
}
use clunk.Ir.Opcode.{Opcode}
use clunk.Ir.Function.{
  IrType, integer_type, bit_width, is_integer, ValueKind, Value, has_name, Instruction, BasicBlock,
  Function,
}
use clunk.Ir.Blocks.{push_block}
use clunk.Ir.Clone.{
  as_value, new_instruction, without_blocks, remap_operands_by_name, compute_predecessors,
}
use clunk.KnownBits.Analysis.{Env, analyse_known_bits}
use clunk.PowersOfTwo.Classify.{Pow2Fact, operand_pow2_fact}

unfoldable pub is_pow2_or_zero : Pow2Fact → Bool
is_pow2_or_zero Pow2Fact.power_of_two = true
is_pow2_or_zero Pow2Fact.zero_or_power_of_two = true
is_pow2_or_zero _ = false

unfoldable pub is_urem : Opcode → Bool
is_urem Opcode.urem = true
is_urem _ = false

abbrev pub operand_of : Instruction → ℕ → Option Value
operand_of inst i = Option.get_or (get_elem? inst.operands i) none

-- A remainder with a name whose divisor is a power of two or zero.
unfoldable pub is_reducible : Env → Instruction → Bool
is_reducible env inst =
    has_name inst.name
    && is_urem inst.opcode
    && length inst.operands == 2
    && is_pow2_or_zero (operand_pow2_fact (operand_of inst 1) env)

unfoldable pub any_instruction : Env → List Instruction → Bool
any_instruction env [] = false
any_instruction env (i ∷ rest) = is_reducible env i || any_instruction env rest

-- The quick pre-check.
unfoldable pub any_reducible : Env → List BasicBlock → Bool
any_reducible env [] = false
any_reducible env (b ∷ rest) = any_instruction env b.instrs || any_reducible env rest

-- The type of the constant one: an integer type, or one as wide as the type.
unfoldable pub one_type : Option IrType → Option IrType
one_type none = none
one_type (some t) = if is_integer t then some t else some (integer_type (bit_width t % 2 ^ 32))

abbrev pub one_value : ℕ → IrType → Value
one_value address type = record {
  address = address;
  kind = ValueKind.constant_int 1;
  type = some type;
  name = "";
}

-- The address that is free next, and the number of remainders rewritten, which also numbers the masks.
pub record Progress : Type 0 where
  pub fresh : ℕ
  pub rewritten : ℕ

pub record Emitted : Type 0 where
  pub instrs : List Instruction
  pub progress : Progress

unfoldable pub verbatim : Instruction → Progress → Emitted
verbatim inst p = record {
  instrs = (record inst { address = p.fresh }) ∷ [];
  progress = record { fresh = p.fresh + 1; rewritten = p.rewritten };
}

module _ (to_string : ℕ → String) where
  abbrev pub mask_name : Instruction → ℕ → String
  mask_name inst id = append inst.name (append ".pow2mask" (to_string id))

  abbrev pub mask_of : Instruction → IrType → Progress → Instruction
  mask_of inst one p =
      new_instruction Opcode.sub (p.fresh + 1) inst.type (mask_name inst p.rewritten)
        (operand_of inst 1 ∷ some (one_value p.fresh one) ∷ [])

  -- `x urem y` becomes `x and (y - 1)`.
  unfoldable pub reduced : Option IrType → Instruction → Progress → Emitted
  reduced none inst p = verbatim inst p
  reduced (some one) inst p = record {
    instrs =
        mask_of inst one p
        ∷ new_instruction Opcode.and (p.fresh + 2) inst.type inst.name
            (operand_of inst 0 ∷ some (as_value (mask_of inst one p)) ∷ [])
        ∷ [];
    progress = record { fresh = p.fresh + 3; rewritten = p.rewritten + 1 };
  }

  unfoldable pub reduce_instruction : Env → Instruction → Progress → Emitted
  reduce_instruction env inst p =
      if is_reducible env inst then reduced (one_type inst.type) inst p else verbatim inst p

  unfoldable pub reduce_instructions : Env → List Instruction → Progress → Emitted
  reduce_instructions env [] p = record { instrs = []; progress = p }
  reduce_instructions env (i ∷ rest) p =
      let e = reduce_instruction env i p in
      let later = reduce_instructions env rest e.progress in
      record { instrs = e.instrs ++ later.instrs; progress = later.progress }

  pub record Rebuilt : Type 0 where
    pub function : Function
    pub progress : Progress

  unfoldable pub reduce_blocks : Env → List BasicBlock → Function → Progress → Rebuilt
  reduce_blocks env [] work p = record { function = work; progress = p }
  reduce_blocks env (b ∷ rest) work p =
      let e = reduce_instructions env b.instrs p in
      reduce_blocks env rest
        (push_block (record { name = b.name; instrs = e.instrs; preds = [] }) work) e.progress

  -- `none` is `nullptr`.
  unfoldable pub finish_reduction : Rebuilt → Option (Function × ℕ)
  finish_reduction r =
      if r.progress.rewritten == 0
      then none
      else some
          (compute_predecessors to_string (remap_operands_by_name r.function), r.progress.rewritten)

  unfoldable pub reduce_with : Env → ℕ → Function → Option (Function × ℕ)
  reduce_with env fresh fn =
      if any_reducible env fn.blocks
      then finish_reduction (
          reduce_blocks env fn.blocks (without_blocks fn) (record { fresh = fresh; rewritten = 0 }))
      else none

  unfoldable pub simplify_pow2_strength_reduce :
      (String → Option ℕ) → ℕ → Function → Option (Function × ℕ)
  simplify_pow2_strength_reduce stoul fresh fn =
      let env = analyse_known_bits stoul fn in
      if length env == 0 then none else reduce_with env fresh fn
