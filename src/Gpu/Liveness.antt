-- ===== src/Gpu/Liveness.antt =====
-- `LivenessAnalysis` (include/clunk/GPU/LivenessAnalysis.h, src/GPU/LivenessAnalysis.cpp). A value or an
-- instruction is its address, a block its position in the function. `to_string` is `std::to_string`.
use Prim.Native.String.{String}
use clunk.Base.{
  ℕ, zero, suc, ◌+◌, max, Bool, true, false, not, ◌&&◌, ◌||◌, if◌then◌else◌, ◌==◌, Option, some,
  none, List, [], ◌∷◌, length, Dict, lookup, insert, nat_key, string_key,
}
use clunk.Base.Sets.{contains}
use clunk.Ir.Opcode.{Opcode, is_terminator}
use clunk.Ir.Function.{Value, has_name, Instruction, BasicBlock, Function}
use clunk.Ir.Blocks.{successors}
use clunk.Ir.Clone.{compute_predecessors}

abbrev pub ValueSet : Type 0
ValueSet = List ℕ

unfoldable pub add_value : ℕ → ValueSet → ValueSet
add_value a s = if contains a s then s else a ∷ s

unfoldable pub add_values : ValueSet → ValueSet → ValueSet
add_values [] s = s
add_values (a ∷ rest) s = add_values rest (add_value a s)

-- Those that are not in the second set.
unfoldable pub add_others : ValueSet → ValueSet → ValueSet → ValueSet
add_others [] defs s = s
add_others (a ∷ rest) defs s = add_others rest defs (if contains a defs then s else add_value a s)

unfoldable pub same_sets : ValueSet → ValueSet → Bool
same_sets a b = length a == length b && length (add_values a b) == length b

unfoldable pub collect_uses : List (Option Value) → ValueSet → ValueSet
collect_uses [] s = s
collect_uses (none ∷ rest) s = collect_uses rest s
collect_uses (some v ∷ rest) s =
    collect_uses rest (if has_name v.name then add_value v.address s else s)

unfoldable pub has_result : Opcode → Bool
has_result Opcode.store = false
has_result Opcode.fence = false
has_result opcode = not (is_terminator opcode)

unfoldable pub collect_def : Instruction → ValueSet
collect_def inst = if has_result inst.opcode && has_name inst.name then inst.address ∷ [] else []

pub record UseDef : Type 0 where
  pub uses : ValueSet
  pub defs : ValueSet

unfoldable pub block_use_def : List Instruction → UseDef → UseDef
block_use_def [] s = s
block_use_def (i ∷ rest) s = block_use_def rest (record {
  uses = add_others (collect_uses i.operands []) s.defs s.uses;
  defs = add_values (collect_def i) s.defs;
})

-- The sets of the blocks, and whether this pass changed one.
pub record BlockSets : Type 0 where
  pub live_in : Dict ℕ ValueSet
  pub live_out : Dict ℕ ValueSet
  pub changed : Bool

abbrev pub set_at : Option ValueSet → ValueSet
set_at none = []
set_at (some s) = s

abbrev pub set_of : Option ℕ → Dict ℕ ValueSet → ValueSet
set_of none sets = []
set_of (some i) sets = set_at (lookup i sets)

unfoldable pub out_of : Dict String ℕ → List String → Dict ℕ ValueSet → ValueSet → ValueSet
out_of index [] live_in s = s
out_of index (name ∷ rest) live_in s =
    out_of index rest live_in (add_values (set_of (lookup name index) live_in) s)

abbrev pub is_old : Option ValueSet → ValueSet → Bool
is_old none s = false
is_old (some old) s = same_sets old s

unfoldable pub update : ℕ → ValueSet → ValueSet → BlockSets → BlockSets
update i new_in new_out s =
    let old_in = is_old (lookup i s.live_in) new_in in
    let old_out = is_old (lookup i s.live_out) new_out in
    record {
      live_in = if old_in then s.live_in else insert i new_in s.live_in;
      live_out = if old_out then s.live_out else insert i new_out s.live_out;
      changed = s.changed || not old_in || not old_out;
    }

abbrev pub liveness_iterations : ℕ
liveness_iterations = 8

-- The peak of a block, what is live at the point that the sweep has come to, and the sets so far.
pub record Backward : Type 0 where
  pub live_in : Dict ℕ ValueSet
  pub live_out : Dict ℕ ValueSet
  pub current : ValueSet
  pub peak : ℕ

unfoldable pub step_back : Instruction → Backward → Backward
step_back inst s =
    let new_in = add_others s.current (collect_def inst) (collect_uses inst.operands []) in
    record {
      live_in = insert inst.address new_in s.live_in;
      live_out = insert inst.address s.current s.live_out;
      current = new_in;
      peak = max s.peak (length new_in);
    }

-- From the last instruction to the first.
unfoldable pub sweep_back : List Instruction → Backward → Backward
sweep_back [] s = s
sweep_back (i ∷ rest) s = step_back i (sweep_back rest s)

pub record LiveSets : Type 0 where
  pub live_in : Dict ℕ ValueSet
  pub live_out : Dict ℕ ValueSet
  pub block_live_in : Dict ℕ ValueSet
  pub block_live_out : Dict ℕ ValueSet
  pub block_max_live : Dict ℕ ℕ
  pub function_max_live : ℕ

abbrev pub no_sets : LiveSets
no_sets = record {
  live_in = [];
  live_out = [];
  block_live_in = [];
  block_live_out = [];
  block_max_live = [];
  function_max_live = 0;
}

unfoldable pub sweep_block : ℕ → List Instruction → LiveSets → LiveSets
sweep_block i [] r = r
sweep_block i (inst ∷ rest) r =
    let out = set_at (lookup i r.block_live_out) in
    let s =
      sweep_back (inst ∷ rest)
        (record { live_in = r.live_in; live_out = r.live_out; current = out; peak = length out }) in
    record r {
      live_in = s.live_in;
      live_out = s.live_out;
      block_max_live = insert i s.peak r.block_max_live;
      function_max_live = max r.function_max_live s.peak;
    }

unfoldable pub sweep_all : ℕ → List BasicBlock → LiveSets → LiveSets
sweep_all i [] r = r
sweep_all i (b ∷ rest) r = sweep_all (i + 1) rest (sweep_block i b.instrs r)

module _ (to_string : ℕ → String) where
  unfoldable pub visit_block : Dict String ℕ → ℕ → BasicBlock → BlockSets → BlockSets
  visit_block index i b s =
      let new_out = out_of index (successors to_string b) s.live_in [] in
      let ud = block_use_def b.instrs (record { uses = []; defs = [] }) in
      update i (add_others new_out ud.defs ud.uses) new_out s

  -- From the last block to the first.
  unfoldable pub visit_blocks : Dict String ℕ → ℕ → List BasicBlock → BlockSets → BlockSets
  visit_blocks index i [] s = s
  visit_blocks index i (b ∷ rest) s = visit_block index i b (visit_blocks index (i + 1) rest s)

  -- `iterations` passes at most, until one changes nothing.
  unfoldable pub fixed_point : ℕ → Function → BlockSets → BlockSets
  fixed_point zero fn s = s
  fixed_point (suc left) fn s =
      let t = visit_blocks fn.block_index 0 fn.blocks (record s { changed = false }) in
      let more = fixed_point left fn t in if t.changed then more else t

  unfoldable pub compute : Function → LiveSets
  compute fn =
      let ready = compute_predecessors to_string fn in
      let s =
        fixed_point liveness_iterations ready
          (record { live_in = []; live_out = []; changed = true }) in
      sweep_all 0 ready.blocks
        (record no_sets { block_live_in = s.live_in; block_live_out = s.live_out })
