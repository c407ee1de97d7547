-- ===== src/Interpreter/Execute.antt =====
-- One instruction: `Context`, `resolve` and `execute` of src/Evaluator/Interpreter.cpp. A null operand,
-- which the code dereferences without a test, counts as one that does not resolve.
use Prim.Native.String.{String, ◌++◌}
use Prim.Native.Char.{code}
use mathlib.Core.Option
use clunk.Base.{
  ℕ, ◌+◌, Bool, true, false, not, if◌then◌else◌, ◌==◌, ltb, leb, Option, some, none, List, [], ◌∷◌,
  get_elem?, length, Dict, lookup, insert, nat_key, string_key,
}
use clunk.Ir.Opcode.{Opcode}
use clunk.Ir.Function.{IrType, Value, as_constant_int, Instruction, is_empty}
use clunk.Interpreter.Values.{
  integer_bit_width, mask_unsigned, sign_extend, apply_binop, apply_icmp,
}

-- `values` is keyed by the address of a value, `memory` by a handle.
pub record Context : Type 0 where
  pub values : Dict ℕ ℕ
  pub memory : Dict ℕ ℕ
  pub next_handle : ℕ

unfoldable pub bind_value : Context → ℕ → ℕ → Context
bind_value ctx address val = (record ctx { values = insert address val ctx.values })

unfoldable pub store_value : Context → ℕ → ℕ → Context
store_value ctx handle val = (record ctx { memory = insert handle val ctx.memory })

unfoldable pub load_value : Context → ℕ → ℕ
load_value ctx handle = Option.get_or (lookup handle ctx.memory) 0

unfoldable pub resolve : Context → Value → Option ℕ
resolve ctx v = elim (as_constant_int v.kind) [
  | some c ↦ some c
  | none ↦ lookup v.address ctx.values
]

-- `resolve(ctx, *inst.operand(i))`
unfoldable pub resolve_at : Context → Instruction → ℕ → Option ℕ
resolve_at ctx inst i = elim (get_elem? inst.operands i) [
  | some (some v) ↦ resolve ctx v
  | _ ↦ none
]

-- What `execute` answers: `ok` false; a return; a branch; or the next instruction.
pub data ExecResult : Type 0 where
  failed : ExecResult
  returned : ℕ → ExecResult
  branched : String → ExecResult
  continued : Context → ExecResult

unfoldable pub bind_result : Context → Instruction → Option ℕ → ExecResult
bind_result ctx inst none = ExecResult.failed
bind_result ctx inst (some v) = ExecResult.continued (bind_value ctx inst.address v)

abbrev comma : ℕ
comma = b','

-- The incoming blocks of a `phi`, split at commas; a last empty name is dropped.
unfoldable pub split_blocks : String → String → List String
split_blocks String.[] cur = if is_empty cur then [] else cur ∷ []
split_blocks (String.◌∷◌ c s) cur =
    let next = split_blocks s "" in
    let longer = split_blocks s (cur ++ String.◌∷◌ c String.[]) in
    if code c == comma then cur ∷ next else longer

-- The operand whose block is the one just left.
unfoldable pub incoming : List String → List (Option Value) → String → Option (Option Value)
incoming [] operands prev = none
incoming (b ∷ blocks) [] prev = none
incoming (b ∷ blocks) (v ∷ operands) prev =
    let later = incoming blocks operands prev in if string_key.same b prev then some v else later

unfoldable pub execute_phi : Context → Instruction → String → ExecResult
execute_phi ctx inst prev = elim (lookup "phi_blocks" inst.metadata) [
  | none ↦ ExecResult.failed
  | some text ↦ elim (incoming (split_blocks text "") inst.operands prev) [
    | some (some v) ↦ bind_result ctx inst (resolve ctx v)
    | some none ↦ ExecResult.failed
    | none ↦ bind_result ctx inst (resolve_at ctx inst 0)
  ]
]

unfoldable pub execute_branch : Context → Instruction → ExecResult
execute_branch ctx inst =
    if ltb 0 (length inst.operands)
    then elim (resolve_at ctx inst 0) [
      | none ↦ ExecResult.failed
      | some c ↦ elim (lookup "true_bb" inst.metadata) [
        | none ↦ ExecResult.failed
        | some on_true ↦ elim (lookup "false_bb" inst.metadata) [
          | none ↦ ExecResult.failed
          | some on_false ↦ ExecResult.branched (if not (c == 0) then on_true else on_false)
        ]
      ]
    ]
    else elim (lookup "dest_bb" inst.metadata) [
      | none ↦ ExecResult.failed
      | some dest ↦ ExecResult.branched dest
    ]

unfoldable pub execute_ret : Context → Instruction → ExecResult
execute_ret ctx inst =
    if length inst.operands == 0
    then ExecResult.returned 0
    else elim (resolve_at ctx inst 0) [ none ↦ ExecResult.failed | some v ↦ ExecResult.returned v ]

unfoldable pub execute_alloca : Context → Instruction → ExecResult
execute_alloca ctx inst =
    ExecResult.continued
      (bind_value (record ctx { next_handle = ctx.next_handle + 1 }) inst.address ctx.next_handle)

-- The loaded value is brought to a width below 64.
unfoldable pub loaded : Option IrType → ℕ → ℕ
loaded type v = elim (integer_bit_width type) [
  | none ↦ v
  | some bits ↦ if ltb bits 64 then sign_extend v bits else v
]

unfoldable pub execute_load : Context → Instruction → ExecResult
execute_load ctx inst = elim (resolve_at ctx inst 0) [
  | none ↦ ExecResult.failed
  | some handle ↦ bind_result ctx inst (some (loaded inst.type (load_value ctx handle)))
]

unfoldable pub execute_store : Context → Instruction → ExecResult
execute_store ctx inst = elim (resolve_at ctx inst 0) [
  | none ↦ ExecResult.failed
  | some val ↦ elim (resolve_at ctx inst 1) [
    | none ↦ ExecResult.failed
    | some handle ↦ ExecResult.continued (store_value ctx handle val)
  ]
]

-- Two operands that resolve, and what is made of them.
unfoldable pub with_operands : Context → Instruction → (ℕ → ℕ → Option ℕ) → ExecResult
with_operands ctx inst f = elim (resolve_at ctx inst 0) [
  | none ↦ ExecResult.failed
  | some lhs ↦ elim (resolve_at ctx inst 1) [
    | none ↦ ExecResult.failed
    | some rhs ↦ bind_result ctx inst (f lhs rhs)
  ]
]

unfoldable pub execute_binop : Context → Instruction → ExecResult
execute_binop ctx inst = elim inst.type [
  | none ↦ ExecResult.failed
  | some t ↦ with_operands ctx inst (λ lhs rhs. apply_binop inst.opcode lhs rhs (some t))
]

unfoldable pub execute_select : Context → Instruction → ExecResult
execute_select ctx inst = elim (resolve_at ctx inst 0) [
  | none ↦ ExecResult.failed
  | some c ↦ elim (resolve_at ctx inst 1) [
    | none ↦ ExecResult.failed
    | some tv ↦ elim (resolve_at ctx inst 2) [
      | none ↦ ExecResult.failed
      | some fv ↦ bind_result ctx inst (some (if not (c == 0) then tv else fv))
    ]
  ]
]

unfoldable pub operand_type : Instruction → ℕ → Option IrType
operand_type inst i = elim (get_elem? inst.operands i) [ some (some v) ↦ v.type | _ ↦ none ]

-- The source's width has to be below that of the result.
unfoldable pub zero_extended : Option ℕ → ℕ → ℕ → Option ℕ
zero_extended none bits v = none
zero_extended (some src_bits) bits v =
    if leb bits src_bits then none else some (mask_unsigned v src_bits)

unfoldable pub cast_value : Opcode → Option IrType → ℕ → ℕ → Option ℕ
cast_value Opcode.trunc src bits v = some (sign_extend (mask_unsigned v bits) bits)
cast_value Opcode.zext src bits v = zero_extended (integer_bit_width src) bits v
cast_value _ src bits v = some v

unfoldable pub execute_cast : Context → Instruction → ExecResult
execute_cast ctx inst = elim (resolve_at ctx inst 0) [
  | none ↦ ExecResult.failed
  | some v ↦ elim (integer_bit_width inst.type) [
    | none ↦ ExecResult.failed
    | some bits ↦ bind_result ctx inst (cast_value inst.opcode (operand_type inst 0) bits v)
  ]
]

abbrev pub is_integer_binop : Opcode → Bool
is_integer_binop Opcode.add = true
is_integer_binop Opcode.sub = true
is_integer_binop Opcode.mul = true
is_integer_binop Opcode.udiv = true
is_integer_binop Opcode.sdiv = true
is_integer_binop Opcode.urem = true
is_integer_binop Opcode.srem = true
is_integer_binop Opcode.and = true
is_integer_binop Opcode.or = true
is_integer_binop Opcode.xor = true
is_integer_binop Opcode.shl = true
is_integer_binop Opcode.lshr = true
is_integer_binop Opcode.ashr = true
is_integer_binop _ = false

abbrev pub is_integer_cast : Opcode → Bool
is_integer_cast Opcode.trunc = true
is_integer_cast Opcode.zext = true
is_integer_cast Opcode.sext = true
is_integer_cast Opcode.bit_cast = true
is_integer_cast Opcode.ptr_to_int = true
is_integer_cast Opcode.int_to_ptr = true
is_integer_cast _ = false

unfoldable pub execute_op :
    (String → Option ℕ) → Opcode → Context → Instruction → String → ExecResult
execute_op stoi Opcode.ret ctx inst prev = execute_ret ctx inst
execute_op stoi Opcode.br ctx inst prev = execute_branch ctx inst
execute_op stoi Opcode.alloca ctx inst prev = execute_alloca ctx inst
execute_op stoi Opcode.load ctx inst prev = execute_load ctx inst
execute_op stoi Opcode.store ctx inst prev = execute_store ctx inst
execute_op stoi Opcode.icmp ctx inst prev = with_operands ctx inst (apply_icmp stoi inst)
execute_op stoi Opcode.select ctx inst prev = execute_select ctx inst
execute_op stoi Opcode.phi ctx inst prev = execute_phi ctx inst prev
execute_op stoi op ctx inst prev =
    if is_integer_binop op
    then execute_binop ctx inst
    else if is_integer_cast op
    then execute_cast ctx inst
    else ExecResult.failed

unfoldable pub execute : (String → Option ℕ) → Context → Instruction → String → ExecResult
execute stoi ctx inst prev = execute_op stoi inst.opcode ctx inst prev
