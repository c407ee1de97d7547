-- ===== src/Prune/Eliminate.antt =====
-- What dead code elimination leaves, and that the result has no use of a definition that is gone.
use Prim.Native.String.{String}
use mathlib.Core.Path.{subst}
use clunk.Base.{
  ℕ, zero, suc, ◌+◌, ◌≡◌, ◌<◌, ◌↔◌, refl, sym, ap, ◌∙◌, true, ◌==◌, Option, some, List, [], ◌∷◌,
  ◌++◌, length, get_elem?, Dict, lookup, string_key, nat_key, Bool-cases, Option-cases, inl, inr,
  arith,
}
use clunk.Base.Sets.{contains}
use clunk.Ir.Opcode.{Opcode, is_terminator}
use clunk.Ir.Function.{Value, Instruction, BasicBlock, Function}
use clunk.Ir.Blocks.{successors}
use clunk.Ir.Addresses.{instructions_of, Among, deep_copy_function-Numbered}
use clunk.Ir.Clone.{
  define_blocks, deep_copy_function, add_predecessor, add_edge, add_edges, add_all_edges,
  clear_predecessors, compute_predecessors,
}
use clunk.Prune.Dead.{
  Outcome, unchanged, changed, out_of_fuel, has_side_effect, has_side_effect_or_is_root, named_by,
  sweep_blocks, finish, eliminate, eliminate_dead_code,
}
use clunk.Prune.Liveness.{Live, live_addresses_found, Live-use, root-Live, named_within}
use clunk.Prune.Sweep.{kept, kept_all, kept-Among, Among-kept, sweep_blocks-kept}

same_instructions-add_predecessor :
    (p : String) (i : ℕ) (bs : List BasicBlock)
    → instructions_of (add_predecessor p i bs) ≡ instructions_of bs
unfolding add_predecessor instructions_of
same_instructions-add_predecessor p i [] = refl
same_instructions-add_predecessor p zero (b ∷ rest) = refl
same_instructions-add_predecessor p (suc i) (b ∷ rest) =
    ap (λ l. b.instrs ++ l) (same_instructions-add_predecessor p i rest)

same_instructions-add_edges :
    (index : Dict String ℕ) (p : String) (names : List String) (bs : List BasicBlock)
    → instructions_of (add_edges index p names bs) ≡ instructions_of bs
unfolding add_edges add_edge
same_instructions-add_edges index p [] bs = refl
same_instructions-add_edges index p (name ∷ rest) bs = elim (Option-cases (lookup name index)) [
  | inl missing ↦ rw missing (same_instructions-add_edges index p rest bs)
  | inr (i, found) ↦ rw found (
      same_instructions-add_edges index p rest (add_predecessor p i bs)
      ∙ same_instructions-add_predecessor p i bs)
]

same_instructions-clear_predecessors :
    (bs : List BasicBlock) → instructions_of (clear_predecessors bs) ≡ instructions_of bs
unfolding clear_predecessors instructions_of
same_instructions-clear_predecessors [] = refl
same_instructions-clear_predecessors (b ∷ rest) =
    ap (λ l. b.instrs ++ l) (same_instructions-clear_predecessors rest)

-- The instructions of the outcome of a pass on a copy `work`.
pub data Leaves (work : Function) (l : List Instruction) : Outcome → Type 0 where
  all : instructions_of work.blocks ≡ l → Leaves work l unchanged
  fewer :
      {result : Function} {removed : ℕ}
      → instructions_of result.blocks ≡ l
      → removed + length l ≡ length (instructions_of work.blocks)
      → 0 < removed
      → Leaves work l (changed result removed)

-- The instructions that a pass on a copy leaves.
abbrev pub left : Function → Outcome → List Instruction
left work unchanged = instructions_of work.blocks
left work (changed result removed) = instructions_of result.blocks
left work out_of_fuel = []

left-Leaves :
    (work : Function) (l : List Instruction) (o : Outcome) → Leaves work l o → left work o ≡ l
left-Leaves work l unchanged (all e) = e
left-Leaves work l (changed result removed) (fewer e count positive) = e
left-Leaves work l out_of_fuel x = elim x [ ]

-- What a program can notice of an instruction: it writes, calls, synchronises, ends its block, or reads
-- memory that may change by itself.
pub data Observable (i : Instruction) : Type 0 where
  writes : i.opcode ≡ Opcode.store → Observable i
  calls : i.opcode ≡ Opcode.call → Observable i
  orders : i.opcode ≡ Opcode.fence → Observable i
  returns : i.opcode ≡ Opcode.ret → Observable i
  branches : i.opcode ≡ Opcode.br → Observable i
  switches : i.opcode ≡ Opcode.switch → Observable i
  invokes : i.opcode ≡ Opcode.invoke → Observable i
  resumes : i.opcode ≡ Opcode.resume → Observable i
  stops : i.opcode ≡ Opcode.unreachable → Observable i
  reads_volatile : i.opcode ≡ Opcode.load → i.volatile ≡ true → Observable i

Observable-root : (i : Instruction) → Observable i → has_side_effect_or_is_root i ≡ true
unfolding has_side_effect_or_is_root has_side_effect is_terminator
Observable-root i (Observable.writes e) = rw e refl
Observable-root i (Observable.calls e) = rw e refl
Observable-root i (Observable.orders e) = rw e refl
Observable-root i (Observable.returns e) = rw e refl
Observable-root i (Observable.branches e) = rw e refl
Observable-root i (Observable.switches e) = rw e refl
Observable-root i (Observable.invokes e) = rw e refl
Observable-root i (Observable.resumes e) = rw e refl
Observable-root i (Observable.stops e) = rw e refl
Observable-root i (Observable.reads_volatile e v) = rw (e, v) refl

module _ (to_string : ℕ → String) where
  same_instructions-add_all_edges :
      (index : Dict String ℕ) (from bs : List BasicBlock)
      → instructions_of (add_all_edges to_string index from bs) ≡ instructions_of bs
  unfolding add_all_edges
  same_instructions-add_all_edges index [] bs = refl
  same_instructions-add_all_edges index (b ∷ rest) bs =
      same_instructions-add_all_edges index rest
        (add_edges index b.name (successors to_string b) bs)
      ∙ same_instructions-add_edges index b.name (successors to_string b) bs

  pub same_instructions-compute_predecessors :
      (fn : Function)
      → instructions_of (compute_predecessors to_string fn).blocks ≡ instructions_of fn.blocks
  unfolding compute_predecessors
  same_instructions-compute_predecessors fn =
      same_instructions-add_all_edges fn.block_index fn.blocks (clear_predecessors fn.blocks)
      ∙ same_instructions-clear_predecessors fn.blocks

  finish-Leaves :
      (work : Function) (live : List ℕ)
      → Leaves work
          (kept live (instructions_of work.blocks))
          (finish to_string work (sweep_blocks live 0 work.blocks))
  unfolding finish
  finish-Leaves work live =
      let s = sweep_blocks live 0 work.blocks in
      let (same, count) = sweep_blocks-kept live work.blocks 0 in
      elim (Bool-cases (s.removed == 0)) [
        | inl none_removed ↦
            rw none_removed
              (all (sym (kept_all live (instructions_of work.blocks) (ground (arith, count)))))
        | inr some_removed ↦ rw some_removed (
            fewer
              (same_instructions-compute_predecessors (record work { blocks = s.blocks }) ∙ same)
              (ground (arith, count)) (ground arith))
      ]

  -- The pass ends, and what it leaves are the instructions of the copy that are live, in their order.
  pub eliminate_dead_code_lem :
      (fresh : ℕ) (fn : Function)
      → (live : List ℕ) × ((a : ℕ)
          → (contains a live ≡ true) ↔ Live (deep_copy_function fresh fn).blocks a)
        × Leaves
            (deep_copy_function fresh fn)
            (kept live (instructions_of (deep_copy_function fresh fn).blocks))
            (eliminate_dead_code to_string fresh fn)
  unfolding eliminate_dead_code eliminate
  eliminate_dead_code_lem fresh fn =
      let work = deep_copy_function fresh fn in
      let (live, found, iff) = live_addresses_found work.blocks in
      (live, iff, rw found (finish-Leaves work live))

  eliminate_dead_code_roots :
      (fresh : ℕ) (fn : Function) (i : Instruction)
      → Among i (instructions_of (deep_copy_function fresh fn).blocks)
      → has_side_effect_or_is_root i ≡ true
      → Among i (left (deep_copy_function fresh fn) (eliminate_dead_code to_string fresh fn))
  eliminate_dead_code_roots fresh fn i m h =
      let work = deep_copy_function fresh fn in
      let (live, iff, leaves) = eliminate_dead_code_lem fresh fn in
      subst (Among i)
        (sym (
          left-Leaves work (kept live (instructions_of work.blocks))
            (eliminate_dead_code to_string fresh fn) leaves))
        (Among-kept live (instructions_of work.blocks) i m
          ((iff i.address).1 (root-Live work.blocks i m h)))

  -- A store, a call, a fence, a volatile load, and an instruction that ends a block (the opcodes ret, br,
  -- switch, invoke, resume and unreachable) stay, whether they are used or not. `SwitchInst`, the opcode
  -- that the parser gives a `switch`, is not among these.
  pub eliminate_dead_code-Observable :
      (fresh : ℕ) (fn : Function) (i : Instruction)
      → Among i (instructions_of (deep_copy_function fresh fn).blocks)
      → Observable i
      → Among i (left (deep_copy_function fresh fn) (eliminate_dead_code to_string fresh fn))
  eliminate_dead_code-Observable fresh fn i m o =
      eliminate_dead_code_roots fresh fn i m (Observable-root i o)

  -- Where an instruction stays, the definition of each of its operands stays.
  pub eliminate_dead_code_defined :
      (fresh : ℕ) (fn : Function) (i d : Instruction) (k : ℕ) (o : Option Value)
      → Among i (left (deep_copy_function fresh fn) (eliminate_dead_code to_string fresh fn))
      → get_elem? i.operands k ≡ some o
      → named_by (define_blocks (deep_copy_function fresh fn).blocks []) o ≡ some d
      → Among d (left (deep_copy_function fresh fn) (eliminate_dead_code to_string fresh fn))
  eliminate_dead_code_defined fresh fn i d k o m at e =
      let work = deep_copy_function fresh fn in
      let l = instructions_of work.blocks in
      let (live, iff, leaves) = eliminate_dead_code_lem fresh fn in
      let same = left-Leaves work (kept live l) (eliminate_dead_code to_string fresh fn) leaves in
      let (there, alive) = kept-Among live l i (subst (Among i) same m) in
      subst (Among d) (sym same) (
        Among-kept live l d (named_within work.blocks o d e) (
          (iff d.address).1 (
            Live-use fresh work.blocks i d k o (deep_copy_function-Numbered fresh fn) there
              ((iff i.address).0 alive) at e)))
