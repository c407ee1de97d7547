-- ===== src/Lib.antt =====
-- A model of the core of clunk, a superoptimiser for LLVM IR, with proofs about it.
--
-- clunk parses LLVM IR into functions of blocks of instructions (include/clunk/IR), runs analyses over
-- them (src/Analysis), searches for cheaper equivalent code and judges candidates (src/Evaluator,
-- src/GPU). The analyses decide what may be folded, so their soundness is the first concern here.
--
-- The parts and their files:
--   Base           lists, dictionaries, machine words and their bits: what the parts share.
--                  Base/Worklist is the search over a stack or a queue that the passes run.
--   Ir             include/clunk/IR/Type.h, Value.h, Instruction.h, BasicBlock.h, Function.h as data
--                  (Ir/Function); the blocks of a function and their successors (Ir/Blocks, from
--                  src/IR/BasicBlock.cpp and Function.h), the deep copy, the predecessors and the remapping
--                  of operands (Ir/Clone, from include/clunk/IR/Clone.h and src/IR/Function.cpp), with what
--                  they do to the index of the blocks, the addresses and the names (Ir/Index, Ir/Addresses,
--                  Ir/Named, Ir/Removed, Ir/Current); the printed form of types (Ir/Printer); the opcodes and predicates with their names (src/IR/Instruction.cpp)
--                  and the words that src/Parser/IRParser.cpp reads (Ir/Opcode, Ir/Predicate, Ir/Names).
--   Meaning        what an integer instruction of LLVM means, written independently of the code.
--   KnownBits      include/clunk/Analysis/KnownBits.h (Lattice), src/Analysis/KnownBits.cpp (Transfer for
--                  the transfer functions, Analysis for `compute_known_bits`, `analyse_known_bits` and
--                  `known_bits_constant`); Masks says which values a fact describes, Program which values
--                  an instruction may produce at run time; SignedBit is about signed orders of i1, which the code gets
--                  wrong; the other files prove the rules sound, such orders left out.
--   PowersOfTwo    src/Analysis/PowersOfTwo.cpp, on top of the known bits.
--   Prune          src/IR/DataflowPrune.cpp: `eliminate_dead_code` (Dead; Sweep, Liveness and Eliminate for
--                  its proofs), `remove_unreachable_blocks` (Unreachable; Names and Reachable) and
--                  `simplify_known_bits` (Folds; Masked), `simplify_cse` and `prune_dataflow` (Cse; Rounds, Ends
--                  and Iterations).
--   Reduce         src/IR/StrengthReduce.cpp: the pass (Urem) and what its rewrite computes (Same).
--   Evaluator      include/clunk/Evaluator/EvaluationCache.h: the cache (Cache), its invariant (Linked,
--                  Evicted) and its abstract view, a list of entries by recency (Recency, Refines, Calls).
--   Gpu            src/GPU/ArchLimits.cpp and src/GPU/OccupancyModel.cpp: the targets (Arch), the
--                  occupancy calculation and its penalty (Occupancy), and what holds of them;
--                  src/GPU/LivenessAnalysis.cpp (Liveness) and the sets it records for each instruction (Live,
--                  Recorded).
--   Interpreter    src/Evaluator/Interpreter.cpp: the arithmetic (Values), one instruction (Execute) and
--                  the walk over the blocks (Walk), with the casts and the wrapping operations against
--                  Meaning (Casts, Binary, Shifts, and Compare for comparisons with the branches on them) and the
--                  memory (Memory; Bound for how values resolve).
--   Examples       concrete inputs.
--
-- Conventions. A 64-bit integer is its unsigned pattern, a natural number below 2 ^ 64, and wraps where
-- it is written; a signed reading compares patterns moved by 2 ^ 63. `std::unordered_map` is an
-- association list (Base/Maps). A loop over a container is recursion on the list, and the loop of
-- `trailing_known_zeros` is recursion on the rounds that are left up to the width, so no fuel is needed. The walk
-- of the interpreter is recursion on the hops that are left of its own cap, 1024: the fuel is the code's.
-- The worklist of a pass runs on fuel, which is the number of instructions or of blocks: a node is put on
-- the list once at most, so that it is empty by then. The loop of `set_capacity` has the entries as fuel.
-- The 8 passes of the liveness analysis and the 4 rounds of `prune_dataflow` are the code's own caps.
--
-- How the parts meet: the passes of Prune and Reduce work on a copy that Ir/Clone makes and restore its
-- edges with `compute_predecessors`; the folds and the strength reduction read the facts of KnownBits and
-- PowersOfTwo. An object has an address, its identity; a pass takes the addresses of new objects from the
-- parameter `fresh` on. An iterator of the cache's list is the number of its node.
--
-- `std::stoul` and `std::stoi` are parameters, `none` where they throw; `std::to_string`
-- is a parameter; `toupper` of the C library is one too.
--
-- Not modelled: the lexer and the rest of the parser, the printer of instructions, the hash of a function,
-- the linkage, visibility and attributes of functions, the searches, the SMT verifier (it drives Z3), the
-- cost models (floating point), PTX and CUDA output, the command line. A ratio that the code keeps in a
-- `double` is an exact fraction here; rounding is not modelled. The signed overflow of 64-bit additions and
-- products in src/Analysis/KnownBits.cpp, undefined in C++, is taken to wrap.
pub mod Base
pub mod Ir
pub mod Meaning
pub mod KnownBits
pub mod PowersOfTwo
pub mod Evaluator
pub mod Gpu
pub mod Interpreter
pub mod Prune
pub mod Reduce
pub mod Examples
