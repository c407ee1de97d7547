-- ===== src/Prune/Unreachable.antt =====
-- `remove_unreachable_blocks` (src/IR/DataflowPrune.cpp). `fresh` is the address that the allocator hands
-- out next, `to_string` is `std::to_string`.
use Prim.Native.String.{String, ◌++◌ as append}
use Prim.Native.Char.{Char, code}
use clunk.Base.{
  ℕ, ◌+◌, Bool, true, false, ◌||◌, if◌then◌else◌, ◌==◌, ltb, Option, some, none, List, [], ◌∷◌,
  ◌++◌, length, get_elem?, Dict, lookup, insert, string_key,
}
use clunk.Base.Sets.{contains}
use clunk.Base.Worklist.{queue, closure}
use clunk.Ir.Opcode.{Opcode}
use clunk.Ir.Function.{is_empty, Value, Instruction, BasicBlock, Function}
use clunk.Ir.Blocks.{block, successors, remove_block}
use clunk.Ir.Clone.{
  new_instruction, deep_copy_function, remap_operands_by_name, compute_predecessors,
  instruction_count,
}
use clunk.Ir.Named.{block_names}
use clunk.Prune.Dead.{Outcome, unchanged, changed, out_of_fuel}

-- `std::getline(bs, b, ',')` until it fails: nothing follows a comma at the end.
unfoldable pub in_front : Char → List String → List String
in_front c [] = String.◌∷◌ c String.[] ∷ []
in_front c (s ∷ rest) = String.◌∷◌ c s ∷ rest

unfoldable pub split_names : String → List String
split_names String.[] = []
split_names (String.◌∷◌ c s) =
    let rest = split_names s in if code c == 44 then "" ∷ rest else in_front c rest

unfoldable pub is_phi : Opcode → Bool
is_phi Opcode.phi = true
is_phi _ = false

unfoldable pub any_dead : List String → List String → Bool
any_dead dead [] = false
any_dead dead (b ∷ rest) = contains b dead || any_dead dead rest

unfoldable pub join : String → String → String
join names b = if is_empty names then b else append names (append "," b)

-- The operands that come from a block that stays, and the names of those blocks.
pub record Incoming : Type 0 where
  pub operands : List (Option Value)
  pub names : String

unfoldable pub surviving : List String → List (Option Value) → List String → Incoming → Incoming
surviving dead [] blocks acc = acc
surviving dead (o ∷ operands) [] acc = acc
surviving dead (o ∷ operands) (b ∷ blocks) acc = surviving dead operands blocks (
    if contains b dead
    then acc
    else record { operands = acc.operands ++ o ∷ []; names = join acc.names b })

unfoldable pub other_metadata : Dict String String → Dict String String → Dict String String
other_metadata [] md = md
other_metadata ((k, v) ∷ rest) md =
    other_metadata rest (if string_key.same k "phi_blocks" then md else insert k v md)

abbrev pub new_phi : ℕ → Instruction → Incoming → Instruction
new_phi address inst kept =
    record (new_instruction Opcode.phi address inst.type inst.name kept.operands) {
      metadata = other_metadata inst.metadata (insert "phi_blocks" kept.names []);
    }

-- The incoming blocks of a phi, where its metadata names them.
unfoldable pub names_in : Option String → List String
names_in none = []
names_in (some text) = split_names text

unfoldable pub incoming_blocks : Instruction → List String
incoming_blocks inst =
    if is_phi inst.opcode then names_in (lookup "phi_blocks" inst.metadata) else []

-- An instruction after the pass, and the address that is free then.
pub record Fixed : Type 0 where
  pub inst : Instruction
  pub fresh : ℕ

unfoldable pub fix_phi : List String → ℕ → Instruction → Fixed
fix_phi dead fresh inst =
    let blocks = incoming_blocks inst in
    if any_dead dead blocks
    then record {
      inst =
          new_phi fresh inst
            (surviving dead inst.operands blocks (record { operands = []; names = "" }));
      fresh = fresh + 1;
    }
    else record { inst = inst; fresh = fresh }

pub record FixedAll : Type 0 where
  pub instrs : List Instruction
  pub fresh : ℕ

unfoldable pub fix_phis : List String → ℕ → List Instruction → FixedAll
fix_phis dead fresh [] = record { instrs = []; fresh = fresh }
fix_phis dead fresh (inst ∷ rest) =
    let head = fix_phi dead fresh inst in
    let later = fix_phis dead head.fresh rest in
    record { instrs = head.inst ∷ later.instrs; fresh = later.fresh }

unfoldable pub fix_block : List String → ℕ → BasicBlock → FixedAll
fix_block dead fresh b =
    if contains b.name dead
    then record { instrs = b.instrs; fresh = fresh }
    else fix_phis dead fresh b.instrs

unfoldable pub fix_blocks : List String → ℕ → List BasicBlock → List BasicBlock
fix_blocks dead fresh [] = []
fix_blocks dead fresh (b ∷ rest) =
    let fixed = fix_block dead fresh b in
    (record b { instrs = fixed.instrs }) ∷ fix_blocks dead fixed.fresh rest

unfoldable pub remove_blocks : List String → Function → Function
remove_blocks [] fn = fn
remove_blocks (name ∷ rest) fn = remove_blocks rest (remove_block name fn)

-- The names that are not reachable.
unfoldable pub unreachable : List String → List String → List String
unreachable reachable [] = []
unreachable reachable (name ∷ rest) =
    let later = unreachable reachable rest in
    if contains name reachable then later else name ∷ later

unfoldable pub if_there : Option BasicBlock → String → List String → List String
if_there none name rest = rest
if_there (some b) name rest = name ∷ rest

unfoldable pub existing : Function → List String → List String
existing fn [] = []
existing fn (name ∷ rest) = if_there (block fn name) name (existing fn rest)

module _ (to_string : ℕ → String) where
  unfoldable pub edges_of : Function → Option BasicBlock → List String
  edges_of fn none = []
  edges_of fn (some b) = existing fn (successors to_string b)

  -- The successors of a block that exist.
  unfoldable pub edges : Function → String → List String
  edges fn name = edges_of fn (block fn name)

  -- A name is put into the queue once at most, so as many rounds as there are blocks.
  unfoldable pub reachable_from : Function → String → Option (List String)
  reachable_from fn entry = closure queue (edges fn) (length fn.blocks) (entry ∷ [])

  unfoldable pub drop_blocks : ℕ → Function → List String → Function
  drop_blocks fresh work dead = compute_predecessors to_string (
      remove_blocks dead
        (remap_operands_by_name (record work { blocks = fix_blocks dead fresh work.blocks })))

  unfoldable pub prune_to : ℕ → Function → Option (List String) → Outcome
  prune_to fresh work none = out_of_fuel
  prune_to fresh work (some reachable) =
      let dead = unreachable reachable (block_names work.blocks) in
      if length reachable == length work.blocks
      then unchanged
      else changed (drop_blocks fresh work dead) (length dead)

  unfoldable pub prune_from : ℕ → Function → Option BasicBlock → Outcome
  prune_from fresh work none = unchanged
  prune_from fresh work (some entry) = prune_to fresh work (reachable_from work entry.name)

  unfoldable pub remove_unreachable_blocks : ℕ → Function → Outcome
  remove_unreachable_blocks fresh fn =
      let work = deep_copy_function fresh fn in
      if ltb (length fn.blocks) 2
      then unchanged
      else prune_from (fresh + instruction_count work) work (get_elem? work.blocks 0)
