-- ===== src/Examples/Names.antt =====
-- Words and numbers for the tables of names (src/IR/Instruction.cpp, src/Parser/IRParser.cpp).
use clunk.Base.{◌≡◌, true, some, ◌↔◌}
use clunk.Ir.Opcode.{Opcode, is_binary_op, is_cast, opcode_name, binop_of_name, conversion_of_name}
use clunk.Ir.Predicate.{CmpPredicate, cmp_predicate_name, is_integer_predicate, predicate_of_name}
use clunk.Ir.Names.{binop_of_name_iff, conversion_of_name_iff, predicate_of_name-name}

binop_of_name_iff_example :
    (binop_of_name "lshr" ≡ some Opcode.lshr)
    ↔ ((is_binary_op Opcode.lshr ≡ true) × (opcode_name Opcode.lshr ≡ "lshr"))
binop_of_name_iff_example = binop_of_name_iff "lshr" Opcode.lshr

conversion_of_name_iff_example :
    (conversion_of_name "zext" ≡ some Opcode.zext)
    ↔ ((is_cast Opcode.zext ≡ true) × (opcode_name Opcode.zext ≡ "zext"))
conversion_of_name_iff_example = conversion_of_name_iff "zext" Opcode.zext

predicate_of_name-name_example :
    predicate_of_name
      (is_integer_predicate CmpPredicate.fugt)
      (cmp_predicate_name CmpPredicate.fugt)
    ≡ CmpPredicate.fugt
predicate_of_name-name_example = predicate_of_name-name CmpPredicate.fugt
