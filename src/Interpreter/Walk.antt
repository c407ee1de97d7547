-- ===== src/Interpreter/Walk.antt =====
-- The walk over the blocks: `Interpreter::interpret` of src/Evaluator/Interpreter.cpp.
use Prim.Native.String.{String}
use clunk.Base.{
  ℕ, zero, suc, Bool, true, false, not, ◌&&◌, ◌||◌, if◌then◌else◌, ◌==◌, Option, some, none, List,
  [], ◌∷◌, length, lookup, nat_key, string_key,
}
use clunk.Ir.Function.{
  IrType, is_integer, is_void, Value, as_constant_int, has_name, Instruction, BasicBlock, Argument,
  Function,
}
use clunk.Ir.Blocks.{block}
use clunk.Interpreter.Execute.{Context, ExecResult, execute, bind_value}

-- The value given for the first argument of the name.
unfoldable pub resolve_argument : List Argument → List ℕ → String → Option ℕ
resolve_argument (a ∷ rest) (v ∷ args) name =
    let later = resolve_argument rest args name in
    if string_key.same a.name name then some v else later
resolve_argument _ _ name = none

unfoldable pub is_unbound_name : Context → Value → Bool
is_unbound_name ctx v = has_name v.name && elim (as_constant_int v.kind) [
  | some _ ↦ false
  | none ↦ elim (lookup v.address ctx.values) [ some _ ↦ false | none ↦ true ]
]

unfoldable pub bind_argument : Function → List ℕ → Context → Value → Context
bind_argument fn args ctx v =
    if is_unbound_name ctx v
    then elim (resolve_argument fn.args args v.name) [
      | none ↦ ctx
      | some av ↦ bind_value ctx v.address av
    ]
    else ctx

-- The operands that name arguments are bound before the instruction runs.
unfoldable pub bind_operands : Function → List ℕ → Context → List (Option Value) → Context
bind_operands fn args ctx [] = ctx
bind_operands fn args ctx (none ∷ rest) = bind_operands fn args ctx rest
bind_operands fn args ctx (some v ∷ rest) = bind_operands fn args (bind_argument fn args ctx v) rest

-- A block that ends with neither a branch nor a return fails.
pub data BlockResult : Type 0 where
  stopped : Option ℕ → BlockResult
  jumped : Context → String → BlockResult

unfoldable pub after_block : BlockResult → (Context → String → Option ℕ) → Option ℕ
after_block (BlockResult.stopped r) jump = r
after_block (BlockResult.jumped after next) jump = jump after next

abbrev pub max_block_hops : ℕ
max_block_hops = 1024

-- No return type, an integer or `void`.
unfoldable pub returns_integer : Option IrType → Bool
returns_integer none = true
returns_integer (some t) = is_integer t || is_void t

abbrev pub empty_context : Context
empty_context = record { values = []; memory = []; next_handle = 1 }

module _ (stoi : String → Option ℕ) (fn : Function) (args : List ℕ) where
  unfoldable pub run_block : Context → String → List Instruction → BlockResult
  run_block ctx prev [] = BlockResult.stopped none
  run_block ctx prev (inst ∷ rest) =
      let bound = bind_operands fn args ctx inst.operands in
      elim (execute stoi bound inst prev) [
        | ExecResult.failed ↦ BlockResult.stopped none
        | ExecResult.returned v ↦ BlockResult.stopped (some v)
        | ExecResult.branched next ↦ BlockResult.jumped bound next
        | ExecResult.continued after ↦ run_block after prev rest
      ]

  -- The body of the loop; a name that is no block fails.
  unfoldable pub visit : Context → String → String → BlockResult
  visit ctx current prev = elim (block fn current) [
    | none ↦ BlockResult.stopped none
    | some bb ↦ run_block ctx prev bb.instrs
  ]

  -- `hops` blocks are still allowed.
  unfoldable pub walk : ℕ → Context → String → String → Option ℕ
  walk zero ctx current prev = none
  walk (suc hops) ctx current prev =
      after_block (visit ctx current prev) (λ after next. walk hops after next current)

  -- From the first block, after the checks of the arguments and of the return type.
  unfoldable pub interpret_from : List BasicBlock → Option ℕ
  interpret_from [] = none
  interpret_from (entry ∷ rest) =
      if not (length args == length fn.args) || not (returns_integer fn.return_type)
      then none
      else walk max_block_hops empty_context entry.name ""

  unfoldable pub interpret : Option ℕ
  interpret = interpret_from fn.blocks
