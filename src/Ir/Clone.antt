-- ===== src/Ir/Clone.antt =====
-- The deep copy of a function, its check and its edges (include/clunk/IR/Clone.h, src/IR/Function.cpp).
-- `fresh` is the address that the allocator hands out next; the copied instructions take the addresses
-- from there on. `to_string` is `std::to_string`.
use Prim.Native.String.{String}
use clunk.Base.{
  ℕ, zero, suc, ◌+◌, false, if◌then◌else◌, ◌==◌, Option, some, none, List, [], ◌∷◌, ◌++◌, length,
  Dict, lookup, insert, string_key,
}
use clunk.Ir.Opcode.{Opcode}
use clunk.Ir.Function.{IrType, ValueKind, Value, has_name, Instruction, BasicBlock, Function}
use clunk.Ir.Blocks.{successors, push_block}

-- An instruction as the value that others have as an operand.
abbrev pub as_value : Instruction → Value
as_value i = record {
  address = i.address;
  kind = ValueKind.instruction;
  type = i.type;
  name = i.name;
}

-- A new instruction with the defaults of its class.
abbrev pub new_instruction : Opcode → ℕ → Option IrType → String → List (Option Value) → Instruction
new_instruction opcode address type name operands = record {
  opcode = opcode;
  address = address;
  type = type;
  name = name;
  operands = operands;
  metadata = [];
  flags = record { nuw = false; nsw = false; exact = false };
  alignment = none;
  volatile = false;
}

unfoldable pub copy_instructions : ℕ → List Instruction → List Instruction
copy_instructions fresh [] = []
copy_instructions fresh (i ∷ rest) =
    (record i { address = fresh }) ∷ copy_instructions (suc fresh) rest

-- A copied block has no predecessors yet.
abbrev pub copy_block : ℕ → BasicBlock → BasicBlock
copy_block fresh b = record { name = b.name; instrs = copy_instructions fresh b.instrs; preds = [] }

unfoldable pub copy_blocks : ℕ → List BasicBlock → Function → Function
copy_blocks fresh [] copy = copy
copy_blocks fresh (b ∷ rest) copy =
    copy_blocks (fresh + length b.instrs) rest (push_block (copy_block fresh b) copy)

abbrev pub without_blocks : Function → Function
without_blocks src = (record src { blocks = []; block_index = [] })

-- `defs[inst->name()] = inst`
unfoldable pub define : Instruction → Dict String Instruction → Dict String Instruction
define i defs = if has_name i.name then insert i.name i defs else defs

unfoldable pub define_all : List Instruction → Dict String Instruction → Dict String Instruction
define_all [] defs = defs
define_all (i ∷ rest) defs = define_all rest (define i defs)

unfoldable pub define_blocks : List BasicBlock → Dict String Instruction → Dict String Instruction
define_blocks [] defs = defs
define_blocks (b ∷ rest) defs = define_blocks rest (define_all b.instrs defs)

-- `it->second != op` compares the objects.
unfoldable pub pick : Option Instruction → Value → Value
pick none v = v
pick (some def) v = if def.address == v.address then v else as_value def

unfoldable pub remap_operand : Dict String Instruction → Option Value → Option Value
remap_operand defs none = none
remap_operand defs (some v) = if has_name v.name then some (pick (lookup v.name defs) v) else some v

unfoldable pub remap_operands : Dict String Instruction → List (Option Value) → List (Option Value)
remap_operands defs [] = []
remap_operands defs (o ∷ rest) = remap_operand defs o ∷ remap_operands defs rest

abbrev pub remapped : Dict String Instruction → Instruction → Instruction
remapped defs i = (record i { operands = remap_operands defs i.operands })

unfoldable pub remap_instructions : Dict String Instruction → List Instruction → List Instruction
remap_instructions defs [] = []
remap_instructions defs (i ∷ rest) = remapped defs i ∷ remap_instructions defs rest

unfoldable pub remap_blocks : Dict String Instruction → List BasicBlock → List BasicBlock
remap_blocks defs [] = []
remap_blocks defs (b ∷ rest) =
    (record b { instrs = remap_instructions defs b.instrs }) ∷ remap_blocks defs rest

-- Two passes, so that a phi may use what is defined later.
unfoldable pub remap_operands_by_name : Function → Function
remap_operands_by_name fn = (record fn {
  blocks = remap_blocks (define_blocks fn.blocks []) fn.blocks;
})

unfoldable pub deep_copy_function : ℕ → Function → Function
deep_copy_function fresh src =
    remap_operands_by_name (copy_blocks fresh src.blocks (without_blocks src))

unfoldable pub instruction_count_from : ℕ → List BasicBlock → ℕ
instruction_count_from count [] = count
instruction_count_from count (b ∷ rest) = instruction_count_from (count + length b.instrs) rest

unfoldable pub instruction_count : Function → ℕ
instruction_count fn = instruction_count_from 0 fn.blocks

-- The block at a position gets one more predecessor.
unfoldable pub add_predecessor : String → ℕ → List BasicBlock → List BasicBlock
add_predecessor p i [] = []
add_predecessor p zero (b ∷ rest) = (record b { preds = b.preds ++ p ∷ [] }) ∷ rest
add_predecessor p (suc i) (b ∷ rest) = b ∷ add_predecessor p i rest

unfoldable pub add_edge : Option ℕ → String → List BasicBlock → List BasicBlock
add_edge none p blocks = blocks
add_edge (some i) p blocks = add_predecessor p i blocks

unfoldable pub add_edges : Dict String ℕ → String → List String → List BasicBlock → List BasicBlock
add_edges index p [] blocks = blocks
add_edges index p (succ_name ∷ rest) blocks =
    add_edges index p rest (add_edge (lookup succ_name index) p blocks)

unfoldable pub clear_predecessors : List BasicBlock → List BasicBlock
clear_predecessors [] = []
clear_predecessors (b ∷ rest) = (record b { preds = [] }) ∷ clear_predecessors rest

module _ (to_string : ℕ → String) where
  -- The loop over the blocks; what a block's successors are does not depend on the predecessors.
  unfoldable pub add_all_edges : Dict String ℕ → List BasicBlock → List BasicBlock → List BasicBlock
  add_all_edges index [] blocks = blocks
  add_all_edges index (b ∷ rest) blocks =
      add_all_edges index rest (add_edges index b.name (successors to_string b) blocks)

  unfoldable pub compute_predecessors : Function → Function
  compute_predecessors fn = (record fn {
    blocks = add_all_edges fn.block_index fn.blocks (clear_predecessors fn.blocks);
  })
