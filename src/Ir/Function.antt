-- ===== src/Ir/Function.antt =====
-- Types, values, instructions, blocks and functions (include/clunk/IR/Type.h, Value.h, Instruction.h,
-- BasicBlock.h, Function.h). A `shared_ptr<Type>` that may be null is an `Option`; a type's own parts
-- and the instructions and blocks that a function holds are never null.
use Prim.Native.String.{String}
use clunk.Base.{ℕ, ◌*◌, Bool, true, false, Option, none, some, List, Dict, not}
use clunk.Base.{u64}
use clunk.Ir.Opcode.{Opcode}

mutual
  pub data IrType : Type 0 where
    void_type : IrType
    integer_type : ℕ → IrType
    float_type : IrType
    double_type : IrType
    pointer_type : IrType → ℕ → IrType
    array_type : ℕ → IrType → IrType
    struct_type : IrTypes → Bool → String → IrType
    function_type : IrType → IrTypes → Bool → IrType
    vector_type : ℕ → IrType → IrType

  pub data IrTypes : Type 0 where
    none_more : IrTypes
    one_more : IrType → IrTypes → IrTypes

-- `size_t` products wrap.
unfoldable pub bit_width : IrType → ℕ
bit_width (integer_type bits) = bits
bit_width float_type = 32
bit_width double_type = 64
bit_width (pointer_type _ _) = 64
bit_width (vector_type count elem) = u64 (count * bit_width elem)
bit_width _ = 0

unfoldable pub is_integer : IrType → Bool
is_integer (integer_type _) = true
is_integer _ = false

unfoldable pub is_void : IrType → Bool
is_void void_type = true
is_void _ = false

-- The subclasses of `Value`. `value_` of a `ConstantInt` is kept as its 64-bit pattern.
pub data ValueKind : Type 0 where
  constant_int : ℕ → ValueKind
  constant_fp constant_vector constant_pointer_null undef_value poison_value : ValueKind
  instruction plain : ValueKind

-- `address` is the identity of the object, by which the interpreter tells values apart.
pub record Value : Type 0 where
  pub address : ℕ
  pub kind : ValueKind
  pub type : Option IrType
  pub name : String

abbrev pub is_empty : String → Bool
is_empty String.[] = true
is_empty (String.◌∷◌ c s) = false

abbrev pub has_name : String → Bool
has_name name = not (is_empty name)

-- `dynamic_cast<const ConstantInt*>`
unfoldable pub as_constant_int : ValueKind → Option ℕ
as_constant_int (constant_int v) = some v
as_constant_int _ = none

pub record BinOpFlags : Type 0 where
  pub nuw : Bool
  pub nsw : Bool
  pub exact : Bool

-- An operand is a pointer that may be null.
pub record Instruction : Type 0 where
  pub opcode : Opcode
  pub address : ℕ
  pub type : Option IrType
  pub name : String
  pub operands : List (Option Value)
  pub metadata : Dict String String
  pub flags : BinOpFlags
  pub alignment : Option ℕ
  pub volatile : Bool

pub record BasicBlock : Type 0 where
  pub name : String
  pub instrs : List Instruction
  pub preds : List String

pub record Argument : Type 0 where
  pub type : Option IrType
  pub name : String

-- `block_index` maps a name to a position in `blocks`.
pub record Function : Type 0 where
  pub name : String
  pub return_type : Option IrType
  pub args : List Argument
  pub blocks : List BasicBlock
  pub block_index : Dict String ℕ
