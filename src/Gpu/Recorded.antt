-- ===== src/Gpu/Recorded.antt =====
-- The sets that the liveness analysis records for the instructions of a function
-- (`LivenessAnalysis::compute`, src/GPU/LivenessAnalysis.cpp).
use Prim.Native.String.{String}
use mathlib.Core.Path.{subst}
use clunk.Base.{
  ℕ, ◌+◌, ◌≤◌, ◌≡◌, refl, sym, ◌∙◌, Bool, true, false, ◌||◌, ◌==◌, some, List, [], ◌∷◌, ◌++◌,
  length, lookup, lookup-insert, nat_key, arith,
}
use clunk.Base.Sets.{contains}
use clunk.Ir.Function.{Instruction, BasicBlock, Function}
use clunk.Ir.Clone.{compute_predecessors}
use clunk.Gpu.Liveness.{
  ValueSet, Backward, step_back, sweep_back, LiveSets, no_sets, set_at, sweep_block, sweep_all,
  compute, fixed_point, liveness_iterations,
}
use clunk.Gpu.Live.{is_live, has_address, sweep_back-is_live, sweep_back-recorded}

-- The sets recorded for `inst` are the values live before it and after it, where `rest` follows it and
-- `out` are live after these; the pressure is no less than the first.
abbrev pub Recorded : LiveSets → Instruction → List Instruction → ValueSet → Type 0
Recorded r inst rest out =
    (ins outs : ValueSet) × (lookup inst.address r.live_in ≡ some ins)
    × (lookup inst.address r.live_out ≡ some outs)
    × ((a : ℕ) → contains a ins ≡ is_live a (inst ∷ rest) out)
    × ((a : ℕ) → contains a outs ≡ is_live a rest out)
    × (length ins ≤ r.function_max_live)

abbrev pub blocks_have_address : ℕ → List BasicBlock → Bool
blocks_have_address a [] = false
blocks_have_address a (b ∷ rest) = has_address a b.instrs || blocks_have_address a rest

sweep_back_away :
    (a : ℕ) (l : List Instruction) (s : Backward)
    → has_address a l ≡ false
    → (lookup a (sweep_back l s).live_in ≡ lookup a s.live_in)
      × (lookup a (sweep_back l s).live_out ≡ lookup a s.live_out)
unfolding sweep_back step_back
sweep_back_away a [] s h = (refl, refl)
sweep_back_away a (inst ∷ rest) s h =
    let before = sweep_back rest s in
    let (ins, outs) = sweep_back_away a rest s (ground arith) in
    let apart : (inst.address == a) ≡ false = ground arith in
    (
      lookup-insert inst.address a (step_back inst before).current before.live_in
          ∙ ground (arith, ins, apart),
      lookup-insert inst.address a before.current before.live_out ∙ ground (arith, outs, apart),
    )

-- The sweep of a block starts from its end.
abbrev start : ℕ → LiveSets → Backward
start i r =
    let out = set_at (lookup i r.block_live_out) in
    record { live_in = r.live_in; live_out = r.live_out; current = out; peak = length out }

sweep_block-Recorded :
    (i : ℕ) (front : List Instruction) (inst : Instruction) (rest : List Instruction) (r : LiveSets)
    → has_address inst.address front ≡ false
    → Recorded
        (sweep_block i (front ++ inst ∷ rest) r)
        inst
        rest
        (set_at (lookup i r.block_live_out))
unfolding sweep_block
sweep_block-Recorded i [] inst rest r h =
    let (ins, outs, peak) = sweep_back-recorded [] inst rest (start i r) h in
    (
      (sweep_back (inst ∷ rest) (start i r)).current,
      (sweep_back rest (start i r)).current,
      ins,
      outs,
      λ a. sweep_back-is_live a (inst ∷ rest) (start i r),
      λ a. sweep_back-is_live a rest (start i r),
      omega (arith, peak),
    )
sweep_block-Recorded i (first ∷ front) inst rest r h =
    let (ins, outs, peak) = sweep_back-recorded (first ∷ front) inst rest (start i r) h in
    (
      (sweep_back (inst ∷ rest) (start i r)).current,
      (sweep_back rest (start i r)).current,
      ins,
      outs,
      λ a. sweep_back-is_live a (inst ∷ rest) (start i r),
      λ a. sweep_back-is_live a rest (start i r),
      omega (arith, peak),
    )

sweep_block_later :
    (i : ℕ) (l : List Instruction) (r : LiveSets) (inst : Instruction) (rest : List Instruction)
    (out : ValueSet)
    → has_address inst.address l ≡ false
    → Recorded r inst rest out
    → Recorded (sweep_block i l r) inst rest out
unfolding sweep_block
sweep_block_later i [] r inst rest out h k = k
sweep_block_later i (first ∷ l) r inst rest out h (ins, outs, before, after, at_in, at_out, most) =
    let (same_in, same_out) = sweep_back_away inst.address (first ∷ l) (start i r) h in
    (ins, outs, same_in ∙ before, same_out ∙ after, at_in, at_out, omega (arith, most))

sweep_block-block_live_out :
    (i : ℕ) (l : List Instruction) (r : LiveSets)
    → (sweep_block i l r).block_live_out ≡ r.block_live_out
unfolding sweep_block
sweep_block-block_live_out i [] r = refl
sweep_block-block_live_out i (first ∷ l) r = refl

sweep_all-block_live_out :
    (i : ℕ) (blocks : List BasicBlock) (r : LiveSets)
    → (sweep_all i blocks r).block_live_out ≡ r.block_live_out
unfolding sweep_all
sweep_all-block_live_out i [] r = refl
sweep_all-block_live_out i (b ∷ rest) r =
    sweep_all-block_live_out (i + 1) rest (sweep_block i b.instrs r)
    ∙ sweep_block-block_live_out i b.instrs r

sweep_all_later :
    (i : ℕ) (blocks : List BasicBlock) (r : LiveSets) (inst : Instruction) (rest : List Instruction)
    (out : ValueSet)
    → blocks_have_address inst.address blocks ≡ false
    → Recorded r inst rest out
    → Recorded (sweep_all i blocks r) inst rest out
unfolding sweep_all
sweep_all_later i [] r inst rest out h k = k
sweep_all_later i (b ∷ blocks) r inst rest out h k =
    sweep_all_later (i + 1) blocks (sweep_block i b.instrs r) inst rest out (ground arith)
      (sweep_block_later i b.instrs r inst rest out (ground arith) k)

sweep_all-Recorded :
    (i k : ℕ) (before : List BasicBlock) (b : BasicBlock) (after : List BasicBlock)
    (front : List Instruction) (inst : Instruction) (rest : List Instruction) (r : LiveSets)
    → length before + i ≡ k
    → b.instrs ≡ front ++ inst ∷ rest
    → has_address inst.address front ≡ false
    → blocks_have_address inst.address after ≡ false
    → Recorded (sweep_all i (before ++ b ∷ after) r) inst rest (set_at (lookup k r.block_live_out))
unfolding sweep_all
sweep_all-Recorded i k [] b after front inst rest r here e h away =
    let same : i ≡ k = omega (arith, here) in
    sweep_all_later (i + 1) after (sweep_block i b.instrs r) inst rest
      (set_at (lookup k r.block_live_out)) away
      (rw (e, ← same) (sweep_block-Recorded i front inst rest r h))
sweep_all-Recorded i k (first ∷ before) b after front inst rest r here e h away =
    let swept = sweep_block i first.instrs r in
    subst
      (λ sets.
        Recorded (sweep_all (i + 1) (before ++ b ∷ after) swept) inst rest (set_at (lookup k sets)))
      (sweep_block-block_live_out i first.instrs r)
      (sweep_all-Recorded (i + 1) k before b after front inst rest swept (omega (arith, here)) e h
        away)

-- The sets that the analysis records for an instruction are the values that are live before and after it
-- (used later in the block before they are defined, or live at its end and not defined before), given the
-- set that it records for the end of the block; the reported pressure is at least the number of values
-- live before the instruction. No instruction before this one in its block, and none of a later block, has
-- its address.
pub compute-Recorded :
    (to_string : ℕ → String) (fn : Function) (before : List BasicBlock) (b : BasicBlock)
    (after : List BasicBlock) (front : List Instruction) (inst : Instruction)
    (rest : List Instruction)
    → (compute_predecessors to_string fn).blocks ≡ before ++ b ∷ after
    → b.instrs ≡ front ++ inst ∷ rest
    → has_address inst.address front ≡ false
    → blocks_have_address inst.address after ≡ false
    → Recorded
        (compute to_string fn)
        inst
        rest
        (set_at (lookup (length before) (compute to_string fn).block_live_out))
unfolding compute
compute-Recorded to_string fn before b after front inst rest blocks e h k =
    let ready = compute_predecessors to_string fn in
    let s =
      fixed_point to_string liveness_iterations ready
        (record { live_in = []; live_out = []; changed = true }) in
    let r : LiveSets = record no_sets { block_live_in = s.live_in; block_live_out = s.live_out } in
    subst
      (λ bs.
        Recorded (sweep_all 0 bs r) inst rest
          (set_at (lookup (length before) (sweep_all 0 bs r).block_live_out)))
      (sym blocks)
      (subst
        (λ sets.
          Recorded (sweep_all 0 (before ++ b ∷ after) r) inst rest
            (set_at (lookup (length before) sets)))
        (sym (sweep_all-block_live_out 0 (before ++ b ∷ after) r))
        (sweep_all-Recorded 0 (length before) before b after front inst rest r (omega arith) e h k))
