-- ===== src/Examples/Rewrites.antt =====
-- A remainder and a mask that the passes rewrite (src/IR/StrengthReduce.cpp, src/IR/DataflowPrune.cpp).
use Prim.Native.String.{String}
use clunk.Base.{
  ℕ, ◌≡◌, ◌≢◌, ◌%◌, ◌^◌, refl, Option, some, [], ◌∷◌, inr, lookup, insert, string_key, arith,
}
use clunk.Ir.Opcode.{Opcode}
use clunk.Ir.Function.{
  integer_type, ValueKind, Value, as_constant_int, Instruction, is_integer, bit_width,
}
use clunk.Ir.Clone.{new_instruction}
use clunk.Meaning.{binary_meaning}
use clunk.KnownBits.Lattice.{KnownBits, exact, meet, mask_for_width, has_conflict, is_fully_known}
use clunk.KnownBits.Masks.{Holds}
use clunk.KnownBits.Exact.{exact-Holds}
use clunk.KnownBits.Bitwise.{meet-Holds}
use clunk.KnownBits.Analysis.{Env, operand_known_bits, integer_width, named_known_bits}
use clunk.Reduce.Urem.{
  Progress, mask_name, reduce_instruction, is_reducible, is_urem, is_pow2_or_zero,
}
use clunk.Reduce.Same.{
  State, read, constant_or_name, evaluate, evaluate_all, reduce_instruction_same,
}
use clunk.PowersOfTwo.Classify.{operand_pow2_fact, classify_pow2}
use clunk.PowersOfTwo.Count.{popcount, ones_below}
use clunk.Prune.Folds.{
  resolve_all, resolve_bound, constant_operand, redundant_mask, is_and, masked_operand, covered,
  covers,
}
use clunk.Prune.Masked.{redundant_mask-meaning}

abbrev named : String → Value
named name = record {
  address = 1;
  kind = ValueKind.plain;
  type = some (integer_type 8);
  name = name;
}

abbrev constant : ℕ → Value
constant c = record {
  address = 2;
  kind = ValueKind.constant_int c;
  type = some (integer_type 8);
  name = "";
}

-- `y` is 0 or 8.
abbrev zero_or_eight : KnownBits
zero_or_eight = meet (exact 8 0) (exact 8 8)

abbrev divisor : ℕ
divisor = 8

abbrev facts : Env
facts = ("y", zero_or_eight) ∷ []

abbrev patterns : State
patterns = ("x", 29) ∷ ("y", 8) ∷ []

abbrev remainder : Instruction
remainder =
    new_instruction Opcode.urem 5 (some (integer_type 8)) "r"
      (some (named "x") ∷ some (named "y") ∷ [])

abbrev begin : Progress
begin = record { fresh = 100; rewritten = 0 }

abbrev digit : ℕ → String
digit n = "0"

y_known : operand_known_bits (some (named "y")) facts ≡ zero_or_eight
unfolding operand_known_bits named_known_bits integer_width is_integer meet as_constant_int lookup
y_known = refl

eight-Holds : Holds zero_or_eight 8
eight-Holds =
    meet-Holds (exact 8 0) (exact 8 8) 8 (unfold exact in refl)
      (inr (exact-Holds 8 8 (omega arith)))

reduce_instruction_same_example :
    (r m : ℕ) × (evaluate_all 8
        (reduce_instruction digit facts remainder begin).instrs
        (some patterns)
      ≡ some (insert "r" r (insert (mask_name digit remainder 0) m patterns)))
    × (divisor ≡ 0 → r ≡ 29)
    × (divisor ≢ 0 → evaluate 8 remainder patterns ≡ some (insert "r" r patterns))
reduce_instruction_same_example =
    reduce_instruction_same digit facts 8 remainder begin patterns 29 8 (named "x") (named "y")
      (omega arith) (omega arith) (omega arith) refl refl (λ e. absurd (cc))
      (unfold read constant_or_name as_constant_int lookup in refl)
      (unfold read constant_or_name as_constant_int lookup in refl) (rw y_known eight-Holds)
      (rw y_known (unfold meet exact in omega arith))
      (unfold is_reducible is_urem operand_pow2_fact in
        rw y_known (
          unfold is_pow2_or_zero classify_pow2 meet exact has_conflict mask_for_width popcount
            ones_below is_fully_known in
          refl))

abbrev mask : Instruction
mask =
    new_instruction Opcode.and 6 (some (integer_type 8)) "m"
      (some (named "y") ∷ some (constant 12) ∷ [])

redundant_mask-meaning_example :
    (o : Option Value) × (c : ℕ) × (resolve_all [] mask.operands ≡ some (named "y") ∷ o ∷ [])
    × (constant_operand o ≡ some c)
    × (binary_meaning Opcode.and 8 8 (c % 2 ^ 8) ≡ some 8)
redundant_mask-meaning_example =
    redundant_mask-meaning facts [] mask (named "y") 8 8
      (unfold redundant_mask resolve_all resolve_bound is_and masked_operand covered
          constant_operand as_constant_int covers operand_known_bits named_known_bits integer_width
          is_integer bit_width lookup meet exact mask_for_width in
        refl)
      refl (omega arith)
      (rw y_known (record { width_eq = unfold meet exact in refl; holds = eight-Holds }))
