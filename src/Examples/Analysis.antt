-- ===== src/Examples/Analysis.antt =====
-- A function of two instructions, `%x = add i8 4, 3` and `%y = mul i8 %x, 2`, for the analyses of a
-- whole function.
use Prim.Native.String.{String}
use mathlib.Core.Path.{subst}
use mathlib.Core.Option
use clunk.Base.{
  ℕ, ◌^◌, ◌%◌, ◌<◌, ◌≡◌, refl, false, Option, none, some, List, [], ◌∷◌, arith, Dict, lookup,
  string_key, insert,
}
use clunk.Ir.Opcode.{Opcode, is_terminator}
use clunk.Ir.Function.{
  IrType, integer_type, ValueKind, Value, Instruction, BasicBlock, Function, as_constant_int,
  is_integer, bit_width,
}
use clunk.Meaning.{binary_meaning, icmp_meaning}
use clunk.KnownBits.Lattice.{exact, has_conflict, is_fully_known, signed_value, mask_for_width}
use clunk.KnownBits.Transfer.{known_bits_add_sub, known_bits_mul, known_bits_icmp}
use clunk.KnownBits.Analysis.{
  compute_known_bits, analyse_known_bits, known_bits_constant, integer_width, analyse_blocks,
  analyse_instructions, analyse_instruction, transfer, operand_at, operand_known_bits,
  named_known_bits,
}
use clunk.KnownBits.Masks.{Holds}
use clunk.KnownBits.Program.{
  Runs, Widths, Reads, Produces, by_binary, compares_signed_bits, any_compares_signed_bits,
  blocks_compare_signed_bits, is_icmp,
}
use clunk.KnownBits.Operands.{Describes}
use clunk.Ir.Predicate.{CmpPredicate}
use clunk.KnownBits.Compare.{is_signed}
use clunk.KnownBits.SignedBit.{known_bits_icmp_reversed}
use clunk.KnownBits.Exact.{extended, exact-Holds}
use clunk.KnownBits.Soundness.{compute_known_bits-Holds}
use clunk.KnownBits.Environment.{Defines, BlocksDefine, analyse_known_bits-Describes}
use clunk.KnownBits.Constant.{known_bits_constant_unique}

abbrev no_numbers : String → Option ℕ
no_numbers text = none

abbrev byte : IrType
byte = integer_type 8

abbrev literal : ℕ → Value
literal n = record { address = 0; kind = ValueKind.constant_int n; type = some byte; name = "" }

abbrev reference : String → Value
reference name = record { address = 1; kind = ValueKind.instruction; type = some byte; name = name }

abbrev instruction : Opcode → String → List (Option Value) → Instruction
instruction op name operands = record {
  opcode = op;
  address = 1;
  type = some byte;
  name = name;
  operands = operands;
  metadata = [];
  flags = record { nuw = false; nsw = false; exact = false };
  alignment = none;
  volatile = false;
}

abbrev sum : Instruction
sum = instruction Opcode.add "x" (some (literal 4) ∷ some (literal 3) ∷ [])

abbrev product : Instruction
product = instruction Opcode.mul "y" (some (reference "x") ∷ some (literal 2) ∷ [])

abbrev body : List BasicBlock
body = record { name = "entry"; instrs = sum ∷ product ∷ []; preds = [] } ∷ []

abbrev program : Function
program = record {
  name = "f";
  return_type = some byte;
  args = [];
  blocks = body;
  block_index = ("entry", 0) ∷ [];
}

abbrev values : Dict String ℕ
values = ("x", 7) ∷ ("y", 14) ∷ []

abbrev runs : Runs
runs name v = lookup name values ≡ some v

abbrev widths : Widths
widths name = 8

literal-Reads : (n : ℕ) → n < 256 → Reads no_numbers widths runs (literal n) 8 n
unfolding as_constant_int
literal-Reads n h = record {
  typed = refl;
  positive = omega arith;
  narrow = omega arith;
  within = omega arith;
  constant = λ c e. omega (arith, Option.some_inj.0 e);
  named = λ e. absurd (cc);
}

reference-Reads : Reads no_numbers widths runs (reference "x") 8 7
unfolding as_constant_int lookup
reference-Reads = record {
  typed = refl;
  positive = omega arith;
  narrow = omega arith;
  within = omega arith;
  constant = λ c e. absurd (cc);
  named = λ e n. (refl, refl);
}

sum-Produces : Produces no_numbers widths runs sum 7
sum-Produces =
    by_binary {a = literal 4} {b = literal 3} 8 4 3 refl refl (literal-Reads 4 (omega arith))
      (literal-Reads 3 (omega arith)) (unfold binary_meaning in refl)

product-Produces : Produces no_numbers widths runs product 14
product-Produces =
    by_binary {a = reference "x"} {b = literal 2} 8 7 2 refl refl reference-Reads
      (literal-Reads 2 (omega arith)) (unfold binary_meaning in refl)

sum-Defines : Defines no_numbers widths runs sum
unfolding integer_width is_integer bit_width lookup
sum-Defines = record {
  own_width = λ n. refl;
  origin =
      λ n r run. subst (Produces no_numbers widths runs sum) (Option.some_inj.0 run) sum-Produces;
}

product-Defines : Defines no_numbers widths runs product
unfolding integer_width is_integer bit_width lookup
product-Defines = record {
  own_width = λ n. refl;
  origin = λ n r run.
      subst (Produces no_numbers widths runs product) (Option.some_inj.0 run) product-Produces;
}

body-Define : BlocksDefine no_numbers widths runs body
body-Define = ((sum-Defines, (product-Defines, tt)), tt)

body-plain : blocks_compare_signed_bits no_numbers body ≡ false
unfolding blocks_compare_signed_bits any_compares_signed_bits compares_signed_bits is_icmp
body-plain = refl

analysed : lookup "y" (analyse_known_bits no_numbers program) ≡ some (exact 8 14)
unfolding analyse_known_bits analyse_blocks analyse_instructions analyse_instruction
    compute_known_bits transfer operand_at operand_known_bits named_known_bits as_constant_int
    is_integer bit_width integer_width is_terminator known_bits_add_sub known_bits_mul
    is_fully_known signed_value mask_for_width exact insert lookup
analysed = refl

folded : known_bits_constant (exact 8 14) (some byte) ≡ some 14
unfolding known_bits_constant is_integer has_conflict is_fully_known signed_value mask_for_width
    exact
folded = refl

compute_known_bits-Holds_example : Holds (compute_known_bits no_numbers sum []) 7
compute_known_bits-Holds_example =
    compute_known_bits-Holds no_numbers widths runs []
      (λ name kb x found run. absurd (unfold lookup in cc)) sum 7
      (unfold compares_signed_bits in unfold is_icmp in refl) sum-Produces

analyse_known_bits-Describes_example : Describes (exact 8 14) 8 14
analyse_known_bits-Describes_example =
    analyse_known_bits-Describes no_numbers widths runs program "y" (exact 8 14) 14 body-plain
      body-Define analysed (unfold lookup in refl)

known_bits_constant_unique_example : (14 ≡ extended 8 14) × (14 % 2 ^ 8 ≡ 14)
known_bits_constant_unique_example =
    known_bits_constant_unique no_numbers widths runs program "y" (exact 8 14) (some byte) 14 14
      body-plain body-Define analysed folded (omega arith) (unfold lookup in refl)

-- `icmp slt i1 true, false`, which holds in LLVM.
known_bits_icmp_reversed_example :
    known_bits_icmp (some CmpPredicate.slt) (exact 1 1) (exact 1 0) ≡ exact 1 0
unfolding icmp_meaning
known_bits_icmp_reversed_example =
    known_bits_icmp_reversed CmpPredicate.slt (exact 1 1) (exact 1 0) 1 0 (unfold is_signed in refl)
      (unfold exact in refl) (unfold exact in refl) (exact-Holds 1 1 (omega arith))
      (exact-Holds 1 0 (omega arith)) (unfold is_fully_known exact mask_for_width in refl)
      (unfold is_fully_known exact mask_for_width in refl)
