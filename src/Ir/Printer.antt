-- ===== src/Ir/Printer.antt =====
-- The printed form of types and flags (`to_string` of include/clunk/IR/Type.h and Instruction.h) and the
-- numbers of the opcodes. `to_string` is `std::to_string`.
use Prim.Native.String.{String, ◌++◌ as append}
use clunk.Base.{ℕ, Bool, not, if◌then◌else◌, ◌==◌}
use clunk.Ir.Opcode.{Opcode}
use clunk.Ir.Function.{
  IrType, void_type, integer_type, float_type, double_type, pointer_type, array_type, struct_type,
  function_type, vector_type, IrTypes, none_more, one_more, is_void, is_empty, BinOpFlags,
}

module _ (to_string : ℕ → String) where
  unfoldable pub integer_text : ℕ → String
  integer_text bits = append "i" (to_string bits)

  unfoldable pub address_space_text : ℕ → String
  address_space_text n = if n == 0 then "" else append " addrspace(" (append (to_string n) ")")

  -- A pointer to `void` is the opaque pointer.
  unfoldable pub pointer_text : Bool → String → ℕ → String
  pointer_text opaque pointee n =
      append (if opaque then "ptr" else append pointee "*") (address_space_text n)

  unfoldable pub array_text : ℕ → String → String
  array_text count elem = append "[" (append (to_string count) (append " x " (append elem "]")))

  unfoldable pub vector_text : ℕ → String → String
  vector_text count elem = append "<" (append (to_string count) (append " x " (append elem ">")))

  unfoldable pub struct_text : String → Bool → String → String
  struct_text fields packed name =
      if not (is_empty name)
      then append "%" name
      else if packed
      then append "<{ " (append fields " }>")
      else append "{ " (append fields " }")

  unfoldable pub function_text : String → String → Bool → String
  function_text ret params vararg =
      append ret (append " (" (append params (append (if vararg then ", ..." else "") ")")))

  unfoldable mutual
    pub type_to_string : IrType → String
    type_to_string void_type = "void"
    type_to_string (integer_type bits) = integer_text bits
    type_to_string float_type = "float"
    type_to_string double_type = "double"
    type_to_string (pointer_type pointee n) =
        pointer_text (is_void pointee) (type_to_string pointee) n
    type_to_string (array_type count elem) = array_text count (type_to_string elem)
    type_to_string (struct_type fields packed name) =
        struct_text (types_to_string fields) packed name
    type_to_string (function_type ret params vararg) =
        function_text (type_to_string ret) (types_to_string params) vararg
    type_to_string (vector_type count elem) = vector_text count (type_to_string elem)

    -- With a comma between two.
    pub types_to_string : IrTypes → String
    types_to_string none_more = ""
    types_to_string (one_more t none_more) = type_to_string t
    types_to_string (one_more t (one_more u rest)) =
        append (type_to_string t) (append ", " (types_to_string (one_more u rest)))

unfoldable pub flags_to_string : BinOpFlags → String
flags_to_string f =
    append (if f.nuw then " nuw" else "")
      (append (if f.nsw then " nsw" else "") (if f.exact then " exact" else ""))

-- `static_cast<unsigned>(opcode)`: the position in the enumeration.
unfoldable pub opcode_number : Opcode → ℕ
opcode_number Opcode.ret = 0
opcode_number Opcode.br = 1
opcode_number Opcode.switch = 2
opcode_number Opcode.invoke = 3
opcode_number Opcode.resume = 4
opcode_number Opcode.unreachable = 5
opcode_number Opcode.add = 6
opcode_number Opcode.sub = 7
opcode_number Opcode.mul = 8
opcode_number Opcode.udiv = 9
opcode_number Opcode.sdiv = 10
opcode_number Opcode.urem = 11
opcode_number Opcode.srem = 12
opcode_number Opcode.fadd = 13
opcode_number Opcode.fsub = 14
opcode_number Opcode.fmul = 15
opcode_number Opcode.fdiv = 16
opcode_number Opcode.frem = 17
opcode_number Opcode.and = 18
opcode_number Opcode.or = 19
opcode_number Opcode.xor = 20
opcode_number Opcode.shl = 21
opcode_number Opcode.lshr = 22
opcode_number Opcode.ashr = 23
opcode_number Opcode.alloca = 24
opcode_number Opcode.load = 25
opcode_number Opcode.store = 26
opcode_number Opcode.get_element_ptr = 27
opcode_number Opcode.fence = 28
opcode_number Opcode.trunc = 29
opcode_number Opcode.zext = 30
opcode_number Opcode.sext = 31
opcode_number Opcode.fp_trunc = 32
opcode_number Opcode.fp_ext = 33
opcode_number Opcode.fp_to_ui = 34
opcode_number Opcode.fp_to_si = 35
opcode_number Opcode.ui_to_fp = 36
opcode_number Opcode.si_to_fp = 37
opcode_number Opcode.ptr_to_int = 38
opcode_number Opcode.int_to_ptr = 39
opcode_number Opcode.bit_cast = 40
opcode_number Opcode.addr_space_cast = 41
opcode_number Opcode.icmp = 42
opcode_number Opcode.fcmp = 43
opcode_number Opcode.phi = 44
opcode_number Opcode.select = 45
opcode_number Opcode.call = 46
opcode_number Opcode.va_arg = 47
opcode_number Opcode.extract_value = 48
opcode_number Opcode.insert_value = 49
opcode_number Opcode.extract_element = 50
opcode_number Opcode.insert_element = 51
opcode_number Opcode.shuffle_vector = 52
opcode_number Opcode.landing_pad = 53
opcode_number Opcode.switch_inst = 54
