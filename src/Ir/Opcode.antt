-- ===== src/Ir/Opcode.antt =====
-- `enum class Opcode`, its classification and its names (include/clunk/IR/Instruction.h,
-- src/IR/Instruction.cpp), and the tables by which src/Parser/IRParser.cpp reads the names back.
use Prim.Native.String.{String}
use clunk.Base.{Bool, true, false, Option, [], ◌∷◌, Dict, lookup, string_key}

pub data Opcode : Type 0 where
  ret br switch invoke resume unreachable : Opcode
  add sub mul udiv sdiv urem srem : Opcode
  fadd fsub fmul fdiv frem : Opcode
  and or xor shl lshr ashr : Opcode
  alloca load store get_element_ptr fence : Opcode
  trunc zext sext fp_trunc fp_ext fp_to_ui : Opcode
  fp_to_si ui_to_fp si_to_fp ptr_to_int int_to_ptr bit_cast addr_space_cast : Opcode
  icmp fcmp phi select call va_arg : Opcode
  extract_value insert_value extract_element insert_element shuffle_vector landing_pad switch_inst :
      Opcode

unfoldable pub is_terminator : Opcode → Bool
is_terminator ret = true
is_terminator br = true
is_terminator switch = true
is_terminator invoke = true
is_terminator resume = true
is_terminator unreachable = true
is_terminator _ = false

unfoldable pub is_binary_op : Opcode → Bool
is_binary_op add = true
is_binary_op sub = true
is_binary_op mul = true
is_binary_op udiv = true
is_binary_op sdiv = true
is_binary_op urem = true
is_binary_op srem = true
is_binary_op fadd = true
is_binary_op fsub = true
is_binary_op fmul = true
is_binary_op fdiv = true
is_binary_op frem = true
is_binary_op and = true
is_binary_op or = true
is_binary_op xor = true
is_binary_op shl = true
is_binary_op lshr = true
is_binary_op ashr = true
is_binary_op _ = false

unfoldable pub is_memory_op : Opcode → Bool
is_memory_op alloca = true
is_memory_op load = true
is_memory_op store = true
is_memory_op get_element_ptr = true
is_memory_op fence = true
is_memory_op _ = false

unfoldable pub is_cast : Opcode → Bool
is_cast trunc = true
is_cast zext = true
is_cast sext = true
is_cast fp_trunc = true
is_cast fp_ext = true
is_cast fp_to_ui = true
is_cast fp_to_si = true
is_cast ui_to_fp = true
is_cast si_to_fp = true
is_cast ptr_to_int = true
is_cast int_to_ptr = true
is_cast bit_cast = true
is_cast addr_space_cast = true
is_cast _ = false

unfoldable pub is_cmp : Opcode → Bool
is_cmp icmp = true
is_cmp fcmp = true
is_cmp _ = false

unfoldable pub opcode_name : Opcode → String
opcode_name ret = "ret"
opcode_name br = "br"
opcode_name switch = "switch"
opcode_name invoke = "invoke"
opcode_name resume = "resume"
opcode_name unreachable = "unreachable"
opcode_name add = "add"
opcode_name sub = "sub"
opcode_name mul = "mul"
opcode_name udiv = "udiv"
opcode_name sdiv = "sdiv"
opcode_name urem = "urem"
opcode_name srem = "srem"
opcode_name fadd = "fadd"
opcode_name fsub = "fsub"
opcode_name fmul = "fmul"
opcode_name fdiv = "fdiv"
opcode_name frem = "frem"
opcode_name and = "and"
opcode_name or = "or"
opcode_name xor = "xor"
opcode_name shl = "shl"
opcode_name lshr = "lshr"
opcode_name ashr = "ashr"
opcode_name alloca = "alloca"
opcode_name load = "load"
opcode_name store = "store"
opcode_name get_element_ptr = "getelementptr"
opcode_name fence = "fence"
opcode_name trunc = "trunc"
opcode_name zext = "zext"
opcode_name sext = "sext"
opcode_name fp_trunc = "fptrunc"
opcode_name fp_ext = "fpext"
opcode_name fp_to_ui = "fptoui"
opcode_name fp_to_si = "fptosi"
opcode_name ui_to_fp = "uitofp"
opcode_name si_to_fp = "sitofp"
opcode_name ptr_to_int = "ptrtoint"
opcode_name int_to_ptr = "inttoptr"
opcode_name bit_cast = "bitcast"
opcode_name addr_space_cast = "addrspacecast"
opcode_name icmp = "icmp"
opcode_name fcmp = "fcmp"
opcode_name phi = "phi"
opcode_name select = "select"
opcode_name call = "call"
opcode_name va_arg = "va_arg"
opcode_name extract_value = "extractvalue"
opcode_name insert_value = "insertvalue"
opcode_name extract_element = "extractelement"
opcode_name insert_element = "insertelement"
opcode_name shuffle_vector = "shufflevector"
opcode_name landing_pad = "landingpad"
opcode_name switch_inst = "switch"

-- The chain of comparisons of the opcode name in `parse_binop`: the first that holds decides, and a
-- name that none knows gives no instruction.
abbrev pub binop_table : Dict String Opcode
binop_table =
    ("add", add)
    ∷ ("sub", sub)
    ∷ ("mul", mul)
    ∷ ("udiv", udiv)
    ∷ ("sdiv", sdiv)
    ∷ ("urem", urem)
    ∷ ("srem", srem)
    ∷ ("fadd", fadd)
    ∷ ("fsub", fsub)
    ∷ ("fmul", fmul)
    ∷ ("fdiv", fdiv)
    ∷ ("frem", frem)
    ∷ ("and", and)
    ∷ ("or", or)
    ∷ ("xor", xor)
    ∷ ("shl", shl)
    ∷ ("lshr", lshr)
    ∷ ("ashr", ashr)
    ∷ []

unfoldable pub binop_of_name : String → Option Opcode
binop_of_name name = lookup name binop_table

-- The chain of `parse_conversion_op`.
abbrev pub conversion_table : Dict String Opcode
conversion_table =
    ("trunc", trunc)
    ∷ ("zext", zext)
    ∷ ("sext", sext)
    ∷ ("fptrunc", fp_trunc)
    ∷ ("fpext", fp_ext)
    ∷ ("fptoui", fp_to_ui)
    ∷ ("fptosi", fp_to_si)
    ∷ ("uitofp", ui_to_fp)
    ∷ ("sitofp", si_to_fp)
    ∷ ("ptrtoint", ptr_to_int)
    ∷ ("inttoptr", int_to_ptr)
    ∷ ("bitcast", bit_cast)
    ∷ ("addrspacecast", addr_space_cast)
    ∷ []

unfoldable pub conversion_of_name : String → Option Opcode
conversion_of_name name = lookup name conversion_table
