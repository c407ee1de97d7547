-- ===== src/Examples/Passes.antt =====
-- A function of three blocks for the passes (src/IR/DataflowPrune.cpp, src/IR/Function.cpp).
use Prim.Native.String.{String}
use clunk.Base.{
  ℕ, Option, ◌+◌, ◌≡◌, ◌≢◌, ◌↔◌, refl, true, none, some, List, [], ◌∷◌, last, lookup, insert,
  string_key, nat_key,
}
use clunk.Base.Sets.{contains, Unrepeated, empty, one_more}
use clunk.Ir.Opcode.{Opcode, is_terminator}
use clunk.Ir.Function.{integer_type, void_type, ValueKind, Value, Instruction, BasicBlock, Function}
use clunk.Ir.Blocks.{
  successors, terminator, terminator_of, targets, branch_successors, single_successor, empty_block,
  push_block, remove_block,
}
use clunk.Ir.Index.{IsIndexed, push_block-IsIndexed, remove_block-IsIndexed}
use clunk.Ir.Addresses.{instructions_of, Among, first, later}
use clunk.Ir.Clone.{
  new_instruction, as_value, copy_instructions, copy_blocks, define, define_all, define_blocks,
  pick, remap_operand, remap_operands, remap_instructions, remap_blocks, remap_operands_by_name,
  deep_copy_function, compute_predecessors, add_all_edges, add_edges, add_edge, add_predecessor,
  clear_predecessors,
}
use clunk.Ir.Named.{block_names}
use clunk.Ir.Removed.{deep_copy_function-IsIndexed}
use clunk.Prune.Dead.{out_of_fuel, eliminate_dead_code, named_by}
use clunk.Prune.Liveness.{Live}
use clunk.Prune.Sweep.{kept}
use clunk.Prune.Eliminate.{
  Leaves, left, eliminate_dead_code_lem, eliminate_dead_code-Observable, returns,
  eliminate_dead_code_defined,
}
use clunk.Prune.Unreachable.{remove_unreachable_blocks}
use clunk.Prune.Reachable.{names_left, Reachable, remove_unreachable_blocks_iff}
use clunk.Prune.Cse.{prune_dataflow}
use clunk.Prune.Ends.{Keeps}
use clunk.Prune.Iterations.{prune_dataflow-Keeps}
use clunk.Gpu.Liveness.{compute, set_at}
use clunk.Gpu.Recorded.{Recorded, compute-Recorded}
use clunk.Ir.Current.{deep_copy_function_current}

abbrev no_digits : ℕ → String
no_digits n = ""

abbrev argument : Value
argument = record { address = 1; kind = ValueKind.plain; type = some (integer_type 8); name = "x" }

abbrev sum : ℕ → Instruction
sum address =
    new_instruction Opcode.add address (some (integer_type 8)) "sum"
      (some argument ∷ some argument ∷ [])

abbrev unused : ℕ → Instruction
unused address =
    new_instruction Opcode.mul address (some (integer_type 8)) "unused"
      (some argument ∷ some argument ∷ [])

abbrev jump : ℕ → Instruction
jump address = record (new_instruction Opcode.br address (some void_type) "" []) {
  metadata = ("dest_bb", "exit") ∷ [];
}

abbrev give : ℕ → ℕ → Instruction
give address used =
    new_instruction Opcode.ret address (some void_type) "" (some (as_value (sum used)) ∷ [])

abbrev entry_block : ℕ → BasicBlock
entry_block n = record {
  name = "entry";
  instrs = sum n ∷ unused (n + 1) ∷ jump (n + 2) ∷ [];
  preds = [];
}

abbrev exit_block : ℕ → ℕ → BasicBlock
exit_block n used = record { name = "exit"; instrs = give n used ∷ []; preds = [] }

abbrev lost_block : ℕ → ℕ → BasicBlock
lost_block n used = record { name = "lost"; instrs = give n used ∷ []; preds = [] }

abbrev small : Function
small = record {
  name = "f";
  return_type = some (integer_type 8);
  args = record { type = some (integer_type 8); name = "x" } ∷ [];
  blocks = entry_block 2 ∷ exit_block 5 2 ∷ lost_block 6 2 ∷ [];
  block_index = ("entry", 0) ∷ ("exit", 1) ∷ ("lost", 2) ∷ [];
}

copied_blocks :
    (deep_copy_function 100 small).blocks
    ≡ entry_block 100 ∷ exit_block 103 100 ∷ lost_block 104 100 ∷ []
unfolding deep_copy_function remap_operands_by_name copy_blocks push_block copy_instructions
    remap_blocks remap_instructions remap_operands remap_operand define_blocks define_all define
    pick lookup insert
copied_blocks = refl

small-Unrepeated : Unrepeated (block_names small.blocks)
unfolding block_names contains
small-Unrepeated = one_more refl (one_more refl (one_more refl empty))

copied-Among : Among (give 103 100) (instructions_of (deep_copy_function 100 small).blocks)
copied-Among = rw copied_blocks (unfold instructions_of in later (later (later first)))

eliminate_dead_code_lem_example :
    (live : List ℕ) × ((a : ℕ)
      → (contains a live ≡ true) ↔ Live (deep_copy_function 100 small).blocks a)
    × Leaves
        (deep_copy_function 100 small)
        (kept live (instructions_of (deep_copy_function 100 small).blocks))
        (eliminate_dead_code no_digits 100 small)
eliminate_dead_code_lem_example = eliminate_dead_code_lem no_digits 100 small

eliminate_dead_code-Observable_example :
    Among
      (give 103 100)
      (left (deep_copy_function 100 small) (eliminate_dead_code no_digits 100 small))
eliminate_dead_code-Observable_example =
    eliminate_dead_code-Observable no_digits 100 small (give 103 100) copied-Among (returns refl)

given-Among :
    Among
      (give 103 100)
      (left (deep_copy_function 100 small) (eliminate_dead_code no_digits 100 small))
given-Among =
    eliminate_dead_code-Observable no_digits 100 small (give 103 100) copied-Among (returns refl)

sum_found :
    named_by (define_blocks (deep_copy_function 100 small).blocks []) (some (as_value (sum 100)))
    ≡ some (sum 100)
sum_found = rw copied_blocks (unfold named_by define_blocks define_all define lookup insert in refl)

eliminate_dead_code_defined_example :
    Among (sum 100) (left (deep_copy_function 100 small) (eliminate_dead_code no_digits 100 small))
eliminate_dead_code_defined_example =
    eliminate_dead_code_defined no_digits 100 small (give 103 100) (sum 100) 0
      (some (as_value (sum 100))) given-Among refl sum_found

remove_unreachable_blocks_iff_example :
    (remove_unreachable_blocks no_digits 100 small ≢ out_of_fuel)
    × ((contains "exit" (
            names_left
              (deep_copy_function 100 small)
              (remove_unreachable_blocks no_digits 100 small))
          ≡ true)
        ↔ Reachable no_digits (deep_copy_function 100 small) "entry" "exit")
remove_unreachable_blocks_iff_example =
    remove_unreachable_blocks_iff no_digits 100 small (entry_block 100) "exit" small-Unrepeated
      (rw copied_blocks)

deep_copy_function-IsIndexed_example : IsIndexed (deep_copy_function 100 small)
deep_copy_function-IsIndexed_example = deep_copy_function-IsIndexed 100 small small-Unrepeated

push_block-IsIndexed_example :
    IsIndexed (push_block (empty_block "end") (deep_copy_function 100 small))
push_block-IsIndexed_example =
    push_block-IsIndexed (empty_block "end") (deep_copy_function 100 small)
      (deep_copy_function-IsIndexed 100 small small-Unrepeated)
      (unfold deep_copy_function remap_operands_by_name copy_blocks push_block lookup insert in
        refl)

remove_block-IsIndexed_example : IsIndexed (remove_block "exit" (deep_copy_function 100 small))
remove_block-IsIndexed_example =
    remove_block-IsIndexed "exit" (deep_copy_function 100 small)
      (deep_copy_function-IsIndexed 100 small small-Unrepeated)

abbrev no_value : String → Option ℕ
no_value text = none

abbrev far : Function → ℕ
far fn = 1000

prune_dataflow-Keeps_example : Keeps small (prune_dataflow no_digits no_digits no_value far small)
prune_dataflow-Keeps_example =
    prune_dataflow-Keeps no_digits no_digits no_value far small small-Unrepeated

small_ready :
    (compute_predecessors no_digits small).blocks
    ≡ entry_block 2 ∷ record (exit_block 5 2) { preds = "entry" ∷ [] } ∷ lost_block 6 2 ∷ []
unfolding compute_predecessors add_all_edges add_edges add_edge add_predecessor clear_predecessors
    successors lookup terminator terminator_of last is_terminator targets branch_successors
    single_successor
small_ready = refl

compute-Recorded_example :
    Recorded
      (compute no_digits small)
      (unused 3)
      (jump 4 ∷ [])
      (set_at (lookup 0 (compute no_digits small).block_live_out))
compute-Recorded_example =
    compute-Recorded no_digits small [] (entry_block 2)
      (record (exit_block 5 2) { preds = "entry" ∷ [] } ∷ lost_block 6 2 ∷ []) (sum 2 ∷ [])
      (unused 3) (jump 4 ∷ []) small_ready refl refl refl

sum_defined : lookup "sum" (define_blocks (deep_copy_function 100 small).blocks []) ≡ some (sum 100)
sum_defined = rw copied_blocks (unfold define_blocks define_all define lookup insert in refl)

deep_copy_function_current_example : (as_value (sum 100)).address ≡ (sum 100).address
deep_copy_function_current_example =
    deep_copy_function_current 100 small (give 103 100) (sum 100) 0 (as_value (sum 100))
      copied-Among refl refl sum_defined
