-- ===== src/Interpreter/Bound.antt =====
-- How values resolve once an instruction is bound (`Context::resolve` and `bind` of
-- src/Evaluator/Interpreter.cpp).
use Prim.Native.String.{String}
use mathlib.Core.Path.{subst}
use clunk.Base.{
  ℕ, ◌≡◌, ◌≢◌, refl, sym, ◌∙◌, Option, some, none, get_elem?, lookup, lookup-insert, nat_key,
  Option-cases, inl, inr, arith,
}
use clunk.Ir.Opcode.{Opcode}
use clunk.Ir.Function.{Value, as_constant_int, Instruction}
use clunk.Interpreter.Execute.{
  Context, ExecResult, bind_value, resolve, resolve_at, execute_op, execute,
}

constant-resolve :
    (ctx : Context) (v : Value) (c : ℕ) → as_constant_int v.kind ≡ some c → resolve ctx v ≡ some c
unfolding resolve
constant-resolve ctx v c constant = rw (resolve, constant) refl

variable-resolve :
    (ctx : Context) (v : Value)
    → as_constant_int v.kind ≡ none
    → resolve ctx v ≡ lookup v.address ctx.values
unfolding resolve
variable-resolve ctx v variable = rw (resolve, variable) refl

-- What was bound last, by its address.
pub bound-resolve :
    (ctx : Context) (v : Value) (address n : ℕ)
    → as_constant_int v.kind ≡ none
    → v.address ≡ address
    → resolve (bind_value ctx address n) v ≡ some n
unfolding bind_value
bound-resolve ctx v address n variable e =
    variable-resolve (bind_value ctx address n) v variable
    ∙ lookup-insert address v.address n ctx.values
    ∙ ground (arith, e)

-- A value of another address, or a constant, resolves as before.
pub bound-resolve_other :
    (ctx : Context) (v : Value) (address n m : ℕ)
    → v.address ≢ address
    → resolve ctx v ≡ some m
    → resolve (bind_value ctx address n) v ≡ some m
unfolding bind_value
bound-resolve_other ctx v address n m apart known = elim (Option-cases (as_constant_int v.kind)) [
  | inl variable ↦
      variable-resolve (bind_value ctx address n) v variable
      ∙ lookup-insert address v.address n ctx.values
      ∙ ground arith
      ∙ sym (variable-resolve ctx v variable)
      ∙ known
  | inr (c, constant) ↦
      constant-resolve (bind_value ctx address n) v c constant
      ∙ sym (constant-resolve ctx v c constant)
      ∙ known
]

pub operand-resolve_at :
    (ctx : Context) (inst : Instruction) (i : ℕ) (v : Value) (m : ℕ)
    → get_elem? inst.operands i ≡ some (some v)
    → resolve ctx v ≡ some m
    → resolve_at ctx inst i ≡ some m
unfolding resolve_at
operand-resolve_at ctx inst i v m e known = rw (resolve_at, e) known

pub as_op :
    (stoi : String → Option ℕ) (ctx : Context) (inst : Instruction) (prev : String) (op : Opcode)
    {r : ExecResult}
    → inst.opcode ≡ op
    → execute_op stoi op ctx inst prev ≡ r
    → execute stoi ctx inst prev ≡ r
unfolding execute
as_op stoi ctx inst prev op {r} e h = subst (λ o. execute_op stoi o ctx inst prev ≡ r) (sym e) h
