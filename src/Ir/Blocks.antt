-- ===== src/Ir/Blocks.antt =====
-- The operations of a block and of a function on its blocks (include/clunk/IR/BasicBlock.h, Function.h,
-- src/IR/BasicBlock.cpp, src/IR/Function.cpp). `to_string` is `std::to_string`.
use Prim.Native.String.{String, ◌++◌ as append}
use clunk.Base.{
  ℕ, zero, suc, ◌+◌, ◌-◌, Bool, false, if◌then◌else◌, ltb, Option, some, none, List, [], ◌∷◌, ◌++◌,
  get_elem?, length, Dict, lookup, insert, erase, map_values, string_key, remove_at, last,
}
use clunk.Ir.Opcode.{Opcode, is_terminator}
use clunk.Ir.Function.{Value, has_name, Instruction, BasicBlock, Function}

-- The last instruction, if it is a terminator.
unfoldable pub terminator_of : Option Instruction → Option Instruction
terminator_of none = none
terminator_of (some i) = if is_terminator i.opcode then some i else none

unfoldable pub terminator : BasicBlock → Option Instruction
terminator b = terminator_of (last b.instrs)

unfoldable pub is_well_formed : BasicBlock → Bool
is_well_formed b = elim (last b.instrs) [ none ↦ false | some i ↦ is_terminator i.opcode ]

unfoldable pub insert_instruction : ℕ → Instruction → List Instruction → List Instruction
insert_instruction zero i l = i ∷ l
insert_instruction (suc pos) i [] = []
insert_instruction (suc pos) i (x ∷ l) = x ∷ insert_instruction pos i l

unfoldable pub replace_instruction : ℕ → Instruction → List Instruction → List Instruction
replace_instruction pos i [] = []
replace_instruction zero i (x ∷ l) = i ∷ l
replace_instruction (suc pos) i (x ∷ l) = x ∷ replace_instruction pos i l

-- The names of the operands that have one.
unfoldable pub operand_names : List (Option Value) → List String
operand_names [] = []
operand_names (none ∷ rest) = operand_names rest
operand_names (some v ∷ rest) =
    let names = operand_names rest in if has_name v.name then v.name ∷ names else names

unfoldable pub single_successor : Option String → List (Option Value) → List String
single_successor (some dest) operands = dest ∷ []
single_successor none operands = operand_names operands

-- Both labels, else the one destination, else the names of the operands.
unfoldable pub branch_successors :
    Option String → Option String → Option String → List (Option Value) → List String
branch_successors (some on_true) (some on_false) dest operands = on_true ∷ on_false ∷ []
branch_successors _ _ dest operands = single_successor dest operands

module _ (to_string : ℕ → String) where
  abbrev pub case_key : ℕ → String
  case_key i = append (append "case_" (to_string i)) "_bb"

  -- The cases from number `i` on, until one is missing. Each round finds another key of the metadata, so
  -- as many rounds as it has entries are enough.
  unfoldable pub case_successors : Dict String String → ℕ → ℕ → List String
  case_successors md zero i = []
  case_successors md (suc left) i = elim (lookup (case_key i) md) [
    | none ↦ []
    | some dest ↦ dest ∷ case_successors md left (i + 1)
  ]

  unfoldable pub switch_successors : Dict String String → List String
  switch_successors md =
      let cases = case_successors md (length md) 0 in
      elim (lookup "default_bb" md) [ none ↦ cases | some dest ↦ dest ∷ cases ]

  unfoldable pub targets : Opcode → Instruction → List String
  targets Opcode.br i =
      branch_successors (lookup "true_bb" i.metadata) (lookup "false_bb" i.metadata)
        (lookup "dest_bb" i.metadata) i.operands
  targets Opcode.switch i = switch_successors i.metadata
  targets _ i = []

  unfoldable pub successors : BasicBlock → List String
  successors b = elim (terminator b) [ none ↦ [] | some i ↦ targets i.opcode i ]

-- An index out of range, where `at` throws, gives `none`.
unfoldable pub block : Function → String → Option BasicBlock
block fn name = elim (lookup name fn.block_index) [ none ↦ none | some i ↦ get_elem? fn.blocks i ]

unfoldable pub push_block : BasicBlock → Function → Function
push_block b fn = (record fn {
  blocks = fn.blocks ++ b ∷ [];
  block_index = insert b.name (length fn.blocks) fn.block_index;
})

abbrev pub empty_block : String → BasicBlock
empty_block name = record { name = name; instrs = []; preds = [] }

unfoldable pub add_block : String → Function → Function
add_block name fn = push_block (empty_block name) fn

unfoldable pub index_from : ℕ → List BasicBlock → Dict String ℕ → Dict String ℕ
index_from i [] index = index
index_from i (b ∷ rest) index = index_from (i + 1) rest (insert b.name i index)

unfoldable pub rebuild_block_index : Function → Function
rebuild_block_index fn = (record fn { block_index = index_from 0 fn.blocks [] })

unfoldable pub remove_block_at : Option ℕ → String → Function → Function
remove_block_at none name fn = fn
remove_block_at (some idx) name fn = (record fn {
  blocks = remove_at idx fn.blocks;
  block_index = map_values (λ v. if ltb idx v then v - 1 else v) (erase name fn.block_index);
})

-- The later positions move down by one.
unfoldable pub remove_block : String → Function → Function
remove_block name fn = remove_block_at (lookup name fn.block_index) name fn
