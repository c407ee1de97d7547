-- ===== src/PowersOfTwo/Classify.antt =====
-- `classify_pow2` and its clients (include/clunk/Analysis/PowersOfTwo.h, src/Analysis/PowersOfTwo.cpp).
use Prim.Native.String.{String}
use clunk.Base.{
  ℕ, not, ◌||◌, if◌then◌else◌, ◌==◌, leb, bit_and, bit_not, Option, some, none, List, [], ◌∷◌, Dict,
  lookup, insert, string_key,
}
use clunk.Ir.Function.{Value, has_name, Instruction, BasicBlock, Function}
use clunk.KnownBits.Lattice.{KnownBits, mask_for_width, has_conflict, is_fully_known}
use clunk.KnownBits.Analysis.{Env, has_integer_type, operand_known_bits, analyse_known_bits}
use clunk.PowersOfTwo.Count.{popcount}

pub data Pow2Fact : Type 0 where
  unknown not_power_of_two power_of_two zero_or_power_of_two : Pow2Fact

unfoldable pub classify_pow2 : KnownBits → Pow2Fact
classify_pow2 kb =
    let mask = mask_for_width kb.width in
    let known_ones = popcount (bit_and kb.one mask) in
    let maybe_set = popcount (bit_and mask (bit_not kb.zero)) in
    if has_conflict kb
    then unknown
    else if leb 2 known_ones
    then not_power_of_two
    else if is_fully_known kb
    then (if known_ones == 1 then power_of_two else not_power_of_two)
    else if maybe_set == 0
    then not_power_of_two
    else if maybe_set == 1
    then zero_or_power_of_two
    else unknown

unfoldable pub operand_pow2_fact : Option Value → Env → Pow2Fact
operand_pow2_fact v env = classify_pow2 (operand_known_bits v env)

abbrev pub Facts : Type 0
Facts = Dict String Pow2Fact

-- An instruction with no name, of no integer type or without a known-bits fact is skipped.
unfoldable pub classify_instruction : Env → Instruction → Facts → Facts
classify_instruction env inst out =
    if not (has_name inst.name) || not (has_integer_type inst.type)
    then out
    else elim (lookup inst.name env) [
      | none ↦ out
      | some kb ↦ insert inst.name (classify_pow2 kb) out
    ]

unfoldable pub classify_instructions : Env → List Instruction → Facts → Facts
classify_instructions env [] out = out
classify_instructions env (inst ∷ rest) out =
    classify_instructions env rest (classify_instruction env inst out)

unfoldable pub classify_blocks : Env → List BasicBlock → Facts → Facts
classify_blocks env [] out = out
classify_blocks env (b ∷ rest) out =
    classify_blocks env rest (classify_instructions env b.instrs out)

unfoldable pub classify_powers_of_two : Function → Env → Facts
classify_powers_of_two fn env = classify_blocks env fn.blocks []

unfoldable pub analyse_powers_of_two : (String → Option ℕ) → Function → Facts
analyse_powers_of_two stoul fn = classify_powers_of_two fn (analyse_known_bits stoul fn)
