-- ===== src/Examples/Runs.antt =====
-- Values and a function of two blocks for the interpreter (src/Evaluator/Interpreter.cpp).
use Prim.Native.String.{String}
use clunk.Base.{
  ℕ, ◌/◌, ◌-◌, ◌+◌, ◌^◌, ◌%◌, ◌≡◌, ◌≢◌, refl, false, Option, some, none, [], ◌∷◌, arith, lookup,
  string_key, nat_key,
}
use clunk.Ir.Opcode.{Opcode}
use clunk.Ir.Function.{
  integer_type, void_type, ValueKind, Value, Instruction, as_constant_int, is_integer, bit_width,
}
use clunk.Meaning.{icmp_meaning, binary_meaning, cast_meaning}
use clunk.KnownBits.Exact.{extended}
use clunk.Interpreter.Values.{apply_binop}
use clunk.Interpreter.Values.{compared_width, integer_bit_width}
use clunk.Ir.Predicate.{CmpPredicate, of_code, numbered, code, is_integer_predicate}
use clunk.Interpreter.Execute.{
  Context, ExecResult, load_value, cast_value, execute, resolve, resolve_at,
}
use clunk.Interpreter.Casts.{cast_value-meaning}
use clunk.Interpreter.Binary.{apply_binop-meaning, apply_binop_overflow}
use clunk.Interpreter.Compare.{execute_compare_branch}
use clunk.Interpreter.Memory.{execute_alloca_store_load}
use clunk.Interpreter.Shifts.{apply_binop_negative_lshr}

cast_value-meaning_example :
    cast_value Opcode.sext (some (integer_type 8)) 32 (extended 8 200)
    ≡ some (extended 32 4294967240)
cast_value-meaning_example =
    cast_value-meaning Opcode.sext 8 32 200 4294967240 (omega arith) (omega arith) (omega arith)
      (omega arith) (λ e. absurd (cc)) (λ e. omega arith) (omega arith)
      (unfold cast_meaning in refl)

apply_binop-meaning_example :
    (v : ℕ) × (apply_binop Opcode.mul (extended 8 200) (extended 8 3) (some (integer_type 8))
      ≡ some v)
    × (v % 2 ^ 8 ≡ 88)
apply_binop-meaning_example =
    apply_binop-meaning Opcode.mul 8 200 3 88 refl (omega arith) (omega arith) (omega arith)
      (omega arith) (unfold binary_meaning in refl)

apply_binop_overflow_example :
    (binary_meaning Opcode.mul 8 (2 ^ 4) (2 ^ 4) ≡ some 0)
    × (apply_binop Opcode.mul (extended 8 (2 ^ 4)) (extended 8 (2 ^ 4)) (some (integer_type 8))
        ≡ some (2 ^ 8))
apply_binop_overflow_example =
    apply_binop_overflow 8 4 4 (omega arith) (omega arith) refl (omega arith)

abbrev no_numbers : String → Option ℕ
no_numbers text = none

abbrev seven : Value
seven = record {
  address = 0;
  kind = ValueKind.constant_int 7;
  type = some (integer_type 8);
  name = "";
}

abbrev jump : Instruction
jump = record {
  opcode = Opcode.br;
  address = 1;
  type = some void_type;
  name = "";
  operands = [];
  metadata = ("dest_bb", "exit") ∷ [];
  flags = record { nuw = false; nsw = false; exact = false };
  alignment = none;
  volatile = false;
}

abbrev at_address : ℕ → Value
at_address n = record {
  address = n;
  kind = ValueKind.instruction;
  type = some (integer_type 8);
  name = "t";
}

abbrev holding : Context
holding = record { values = (2, extended 8 200) ∷ []; memory = []; next_handle = 5 }

abbrev less : Instruction
less = record jump {
  opcode = Opcode.icmp;
  operands = some (at_address 2) ∷ some seven ∷ [];
  metadata = ("pred", "slt") ∷ [];
}

abbrev fork : Instruction
fork = record jump {
  operands = some (at_address 1) ∷ [];
  metadata = ("true_bb", "below") ∷ ("false_bb", "above") ∷ [];
}

-- A parser that reads every word as the number of `slt`.
abbrev forty : String → Option ℕ
forty text = some 40

execute_compare_branch_example :
    (after : Context) × (execute forty holding less "" ≡ ExecResult.continued after)
    × (execute forty after fork "" ≡ ExecResult.branched "below")
unfolding icmp_meaning
execute_compare_branch_example =
    execute_compare_branch forty holding less fork (at_address 1) "" "slt" "below" "above"
      CmpPredicate.slt 40 8 200 7 refl (unfold lookup in refl) refl
      (unfold of_code numbered code in refl) (unfold is_integer_predicate in refl)
      (unfold compared_width integer_bit_width is_integer bit_width in refl) (omega arith)
      (omega arith) (omega arith) (omega arith)
      (unfold resolve_at resolve as_constant_int lookup in refl)
      (unfold resolve_at resolve as_constant_int lookup extended in refl) refl refl
      (unfold as_constant_int in refl) refl (unfold lookup in refl) (unfold lookup in refl)

abbrev slot : Instruction
slot = record jump { opcode = Opcode.alloca; address = 3; metadata = [] }

abbrev put : Instruction
put = record jump {
  opcode = Opcode.store;
  operands = some (at_address 2) ∷ some (at_address 3) ∷ [];
  metadata = [];
}

abbrev fetch : Instruction
fetch = record jump {
  opcode = Opcode.load;
  address = 4;
  type = some (integer_type 8);
  operands = some (at_address 3) ∷ [];
  metadata = [];
}

execute_alloca_store_load_example :
    (a b c : Context) × (execute no_numbers holding slot "" ≡ ExecResult.continued a)
    × (execute no_numbers a put "" ≡ ExecResult.continued b)
    × (execute no_numbers b fetch "" ≡ ExecResult.continued c)
    × (lookup 4 c.values ≡ some (extended 8 200))
    × ((other : ℕ) → other ≢ 5 → load_value c other ≡ load_value holding other)
execute_alloca_store_load_example =
    execute_alloca_store_load no_numbers holding slot put fetch (at_address 2) (at_address 3)
      (at_address 3) "" 8 200 (omega arith) (omega arith) (omega arith) refl refl refl refl refl
      refl (unfold resolve as_constant_int lookup in refl) (λ e. absurd (omega arith))
      (unfold as_constant_int in refl) refl (unfold as_constant_int in refl) refl

apply_binop_negative_lshr_example :
    (binary_meaning Opcode.lshr 8 200 1 ≡ some (200 / 2))
    × (v : ℕ) × (apply_binop Opcode.lshr (extended 8 200) 1 (some (integer_type 8)) ≡ some v)
    × (v % 2 ^ 8 ≡ 200 / 2 + 2 ^ (8 - 1))
apply_binop_negative_lshr_example =
    apply_binop_negative_lshr 8 200 (omega arith) (omega arith) (omega arith) (omega arith)
