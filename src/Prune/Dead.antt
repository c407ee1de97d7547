-- ===== src/Prune/Dead.antt =====
-- Dead code elimination (`eliminate_dead_code` of src/IR/DataflowPrune.cpp). A pointer to an instruction
-- is its address in the copy that the pass works on. `to_string` is `std::to_string`.
use Prim.Native.String.{String}
use clunk.Base.{
  ℕ, zero, suc, ◌+◌, Bool, true, false, not, if◌then◌else◌, ◌==◌, Option, some, none, List, [], ◌∷◌,
  length, get_elem?, remove_at, Dict, lookup, string_key, nat_key,
}
use clunk.Base.Sets.{contains}
use clunk.Base.Worklist.{stack, closure}
use clunk.Ir.Opcode.{Opcode, is_terminator}
use clunk.Ir.Function.{Value, has_name, Instruction, BasicBlock, Function}
use clunk.Ir.Addresses.{instructions_of, at_address}
use clunk.Ir.Clone.{define_blocks, deep_copy_function, compute_predecessors}

-- What a pass answers: `nullptr`, a new function, or a loop that was not given enough rounds.
pub data Outcome : Type 0 where
  unchanged : Outcome
  changed : Function → ℕ → Outcome
  out_of_fuel : Outcome

unfoldable pub has_side_effect : Opcode → Instruction → Bool
has_side_effect Opcode.store i = true
has_side_effect Opcode.call i = true
has_side_effect Opcode.fence i = true
has_side_effect Opcode.load i = i.volatile
has_side_effect Opcode.alloca i = not (has_name i.name)
has_side_effect _ i = false

unfoldable pub has_side_effect_or_is_root : Instruction → Bool
has_side_effect_or_is_root i = if is_terminator i.opcode then true else has_side_effect i.opcode i

unfoldable pub roots : List Instruction → List ℕ
roots [] = []
roots (i ∷ rest) =
    let later = roots rest in if has_side_effect_or_is_root i then i.address ∷ later else later

-- The instruction that an operand names; an argument of the function has none.
unfoldable pub named_by : Dict String Instruction → Option Value → Option Instruction
named_by by_name none = none
named_by by_name (some v) = if has_name v.name then lookup v.name by_name else none

unfoldable pub use_of : Option Instruction → List ℕ → List ℕ
use_of none rest = rest
use_of (some d) rest = d.address ∷ rest

unfoldable pub used_by : Dict String Instruction → List (Option Value) → List ℕ
used_by by_name [] = []
used_by by_name (o ∷ rest) = use_of (named_by by_name o) (used_by by_name rest)

unfoldable pub used_by_instruction : Dict String Instruction → Option Instruction → List ℕ
used_by_instruction by_name none = []
used_by_instruction by_name (some i) = used_by by_name i.operands

-- What the instruction at an address uses.
unfoldable pub uses : List Instruction → Dict String Instruction → ℕ → List ℕ
uses insts by_name a = used_by_instruction by_name (at_address a insts)

-- Each instruction is put on the worklist once at most, so as many rounds as there are instructions.
unfoldable pub live_addresses : List Instruction → Dict String Instruction → Option (List ℕ)
live_addresses insts by_name = closure stack (uses insts by_name) (length insts) (roots insts)

pub record Swept : Type 0 where
  pub instrs : List Instruction
  pub removed : ℕ

unfoldable pub drop_dead : List ℕ → ℕ → Option Instruction → Swept → Swept
drop_dead live i none s = s
drop_dead live i (some inst) s =
    if contains inst.address live
    then s
    else record { instrs = remove_at i s.instrs; removed = s.removed + 1 }

-- `for (size_t i = block->size(); i-- > 0;)`
unfoldable pub sweep : List ℕ → ℕ → Swept → Swept
sweep live zero s = s
sweep live (suc i) s = sweep live i (drop_dead live i (get_elem? s.instrs i) s)

pub record SweptBlocks : Type 0 where
  pub blocks : List BasicBlock
  pub removed : ℕ

unfoldable pub sweep_blocks : List ℕ → ℕ → List BasicBlock → SweptBlocks
sweep_blocks live removed [] = record { blocks = []; removed = removed }
sweep_blocks live removed (b ∷ rest) =
    let s = sweep live (length b.instrs) (record { instrs = b.instrs; removed = removed }) in
    let later = sweep_blocks live s.removed rest in
    record { blocks = (record b { instrs = s.instrs }) ∷ later.blocks; removed = later.removed }

module _ (to_string : ℕ → String) where
  unfoldable pub finish : Function → SweptBlocks → Outcome
  finish work s =
      if s.removed == 0
      then unchanged
      else changed (compute_predecessors to_string (record work { blocks = s.blocks })) s.removed

  unfoldable pub eliminate : Function → Option (List ℕ) → Outcome
  eliminate work none = out_of_fuel
  eliminate work (some live) = finish work (sweep_blocks live 0 work.blocks)

  unfoldable pub eliminate_dead_code : ℕ → Function → Outcome
  eliminate_dead_code fresh fn =
      let work = deep_copy_function fresh fn in
      eliminate work (live_addresses (instructions_of work.blocks) (define_blocks work.blocks []))
