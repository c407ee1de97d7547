-- ===== src/Prune/Folds.antt =====
-- `simplify_known_bits` (src/IR/DataflowPrune.cpp). `fresh` is the address that the allocator hands out
-- next, `stoul` and `to_string` are the functions of the C++ library.
use Prim.Native.String.{String}
use mathlib.Core.Option
use clunk.Base.{
  ℕ, ◌+◌, Bool, true, false, not, ◌&&◌, ◌||◌, if◌then◌else◌, ◌==◌, bit_and, bit_or, Option, some,
  none, List, [], ◌∷◌, ◌++◌, length, Dict, lookup, insert, string_key,
}
use clunk.Ir.Opcode.{Opcode, is_terminator}
use clunk.Ir.Function.{
  IrType, ValueKind, Value, as_constant_int, has_name, Instruction, BasicBlock, Function,
}
use clunk.Ir.Blocks.{push_block, terminator}
use clunk.Ir.Clone.{new_instruction, without_blocks, remap_operands_by_name, compute_predecessors}
use clunk.KnownBits.Lattice.{KnownBits, mask_for_width, has_conflict, is_fully_known}
use clunk.KnownBits.Analysis.{
  Env, has_integer_type, integer_width, operand_known_bits, known_bits_constant, analyse_known_bits,
}

-- A fact that pins a value down.
abbrev pub pins : KnownBits → Bool
pins kb = not (has_conflict kb) && is_fully_known kb

abbrev pub pins_some : Option KnownBits → Bool
pins_some none = false
pins_some (some kb) = pins kb

unfoldable pub is_foldable : Env → Instruction → Bool
is_foldable env inst =
    has_name inst.name && pins_some (lookup inst.name env) && has_integer_type inst.type

unfoldable pub any_fold : Env → List Instruction → Bool
any_fold env [] = false
any_fold env (i ∷ rest) = is_foldable env i || any_fold env rest

unfoldable pub any_fold_in : Env → List BasicBlock → Bool
any_fold_in env [] = false
any_fold_in env (b ∷ rest) = any_fold env b.instrs || any_fold_in env rest

unfoldable pub is_br : Opcode → Bool
is_br Opcode.br = true
is_br _ = false

-- The condition of the branch that ends a block.
unfoldable pub condition_pinned : Env → Opcode → List (Option Value) → Bool
condition_pinned env opcode [] = false
condition_pinned env opcode (cond ∷ rest) = is_br opcode && pins (operand_known_bits cond env)

unfoldable pub branch_pinned : Env → Option Instruction → Bool
branch_pinned env none = false
branch_pinned env (some term) = condition_pinned env term.opcode term.operands

unfoldable pub any_branch_fold : Env → List BasicBlock → Bool
any_branch_fold env [] = false
any_branch_fold env (b ∷ rest) = branch_pinned env (terminator b) || any_branch_fold env rest

-- What each removed name stands for.
abbrev pub Binding : Type 0
Binding = Dict String Value

unfoldable pub resolve_bound : Binding → Option Value → Option Value
resolve_bound binding none = none
resolve_bound binding (some v) =
    if has_name v.name then some (Option.get_or (lookup v.name binding) v) else some v

unfoldable pub resolve_all : Binding → List (Option Value) → List (Option Value)
resolve_all binding [] = []
resolve_all binding (o ∷ rest) = resolve_bound binding o ∷ resolve_all binding rest

unfoldable pub constant_at : Option KnownBits → Option IrType → Option ℕ
constant_at none ty = none
constant_at (some kb) ty = known_bits_constant kb ty

-- The constant that an instruction folds to.
unfoldable pub folded_constant : Env → Instruction → Option ℕ
folded_constant env inst =
    if has_name inst.name && not (is_terminator inst.opcode) && has_integer_type inst.type
    then constant_at (lookup inst.name env) inst.type
    else none

unfoldable pub constant_operand : Option Value → Option ℕ
constant_operand none = none
constant_operand (some v) = as_constant_int v.kind

-- The constant keeps every bit that the operand might have set.
unfoldable pub covers : KnownBits → ℕ → ℕ → Bool
covers kb w c =
    let mask = mask_for_width w in
    let cbits = bit_and c mask in bit_and (bit_or kb.zero cbits) mask == mask

unfoldable pub covered : Env → Option Value → Option ℕ → Option Value
covered env lhs none = none
covered env none (some c) = none
covered env (some v) (some c) =
    if has_integer_type v.type && covers (operand_known_bits (some v) env) (integer_width v.type) c
    then some v
    else none

unfoldable pub is_and : Opcode → Bool
is_and Opcode.and = true
is_and _ = false

unfoldable pub masked_operand : Env → List (Option Value) → Option Value
masked_operand env (lhs ∷ rhs ∷ []) = covered env lhs (constant_operand rhs)
masked_operand env _ = none

-- The operand that an `and` with a redundant mask is.
unfoldable pub redundant_mask : Env → Binding → Instruction → Option Value
redundant_mask env binding inst =
    if has_name inst.name && is_and inst.opcode
    then masked_operand env (resolve_all binding inst.operands)
    else none

-- The counters of the pass.
pub record Counts : Type 0 where
  pub folded : ℕ
  pub masks_removed : ℕ
  pub cmps_folded : ℕ
  pub branches : ℕ

pub record Folding : Type 0 where
  pub binding : Binding
  pub counts : Counts
  pub fresh : ℕ
  pub instrs : List Instruction

unfoldable pub is_comparison : Opcode → Bool
is_comparison Opcode.icmp = true
is_comparison _ = false

abbrev pub count_fold : Opcode → Counts → Counts
count_fold opcode n =
    if is_comparison opcode
    then record n { cmps_folded = n.cmps_folded + 1 }
    else record n { folded = n.folded + 1 }

abbrev pub bind_constant : Instruction → ℕ → Folding → Folding
bind_constant inst c s = record s {
  binding =
      insert inst.name
        (record { address = s.fresh; kind = ValueKind.constant_int c; type = inst.type; name = "" })
        s.binding;
  counts = count_fold inst.opcode s.counts;
  fresh = s.fresh + 1;
}

abbrev pub bind_operand : Instruction → Value → Folding → Folding
bind_operand inst v s = record s {
  binding = insert inst.name v s.binding;
  counts = (record s.counts { masks_removed = s.counts.masks_removed + 1 });
}

abbrev pub emit : Instruction → Folding → Folding
emit inst s = record s { instrs = s.instrs ++ inst ∷ []; fresh = s.fresh + 1 }

-- The block that a branch on a constant goes to, where both are named.
unfoldable pub taken : Option ℕ → Option String → Option String → Option String
taken (some c) (some on_true) (some on_false) = some (if c == 0 then on_false else on_true)
taken _ _ _ = none

unfoldable pub first_constant : List (Option Value) → Option ℕ
first_constant [] = none
first_constant (o ∷ rest) = constant_operand o

unfoldable pub folded_branch : Instruction → Option String
folded_branch inst =
    if is_br inst.opcode
    then taken (first_constant inst.operands) (lookup "true_bb" inst.metadata)
        (lookup "false_bb" inst.metadata)
    else none

unfoldable pub emit_rebuilt : Option String → Instruction → Folding → Folding
emit_rebuilt none inst s = emit inst s
emit_rebuilt (some dest) inst s =
    emit
      (record (new_instruction Opcode.br (s.fresh + 1) inst.type "" []) {
        metadata = insert "dest_bb" dest [];
      })
      (record s {
        fresh = s.fresh + 1;
        counts = (record s.counts { branches = s.counts.branches + 1 });
      })

abbrev pub rebuilt : Instruction → Folding → Instruction
rebuilt inst s = record inst { address = s.fresh; operands = resolve_all s.binding inst.operands }

unfoldable pub fold_or_emit : Option ℕ → Option Value → Instruction → Folding → Folding
fold_or_emit (some c) _ inst s = bind_constant inst c s
fold_or_emit none (some v) inst s = bind_operand inst v s
fold_or_emit none none inst s = emit_rebuilt (folded_branch (rebuilt inst s)) (rebuilt inst s) s

unfoldable pub fold_instruction : Env → Instruction → Folding → Folding
fold_instruction env inst s =
    fold_or_emit (folded_constant env inst) (redundant_mask env s.binding inst) inst s

unfoldable pub fold_instructions : Env → List Instruction → Folding → Folding
fold_instructions env [] s = s
fold_instructions env (i ∷ rest) s = fold_instructions env rest (fold_instruction env i s)

pub record Folded : Type 0 where
  pub function : Function
  pub counts : Counts

-- The binding and the counters go on from block to block.
unfoldable pub fold_blocks : Env → List BasicBlock → Function → Folding → Folded
fold_blocks env [] work s = record { function = work; counts = s.counts }
fold_blocks env (b ∷ rest) work s =
    let t = fold_instructions env b.instrs (record s { instrs = [] }) in
    fold_blocks env rest (push_block (record { name = b.name; instrs = t.instrs; preds = [] }) work)
      t

abbrev pub no_counts : Counts
no_counts = record { folded = 0; masks_removed = 0; cmps_folded = 0; branches = 0 }

abbrev pub nothing_done : Counts → Bool
nothing_done n = n.folded == 0 && n.masks_removed == 0 && n.cmps_folded == 0 && n.branches == 0

module _ (to_string : ℕ → String) where
  -- `none` is `nullptr`.
  unfoldable pub finish_folds : Folded → Option (Function × Counts)
  finish_folds r =
      if nothing_done r.counts
      then none
      else some (compute_predecessors to_string (remap_operands_by_name r.function), r.counts)

  unfoldable pub fold_with : Env → ℕ → Function → Option (Function × Counts)
  fold_with env fresh fn =
      if any_fold_in env fn.blocks || any_branch_fold env fn.blocks
      then finish_folds (
          fold_blocks env fn.blocks (without_blocks fn)
            (record { binding = []; counts = no_counts; fresh = fresh; instrs = [] }))
      else none

  unfoldable pub simplify_known_bits :
      (String → Option ℕ) → ℕ → Function → Option (Function × Counts)
  simplify_known_bits stoul fresh fn =
      let env = analyse_known_bits stoul fn in
      if length env == 0 then none else fold_with env fresh fn
