-- ===== src/Interpreter/Compare.antt =====
-- Comparisons of the interpreter and the branches on them (`apply_icmp` and `execute` of
-- src/Evaluator/Interpreter.cpp) against the meaning of LLVM.
use Prim.Native.String.{String}
use clunk.Base.{
  ℕ, ◌^◌, ◌%◌, ◌≤◌, ◌<◌, ◌≡◌, refl, sym, ap, ◌∙◌, Bool, true, false, not, if◌then◌else◌, ◌==◌,
  Option, some, none, [], ◌∷◌, lookup, string_key, nat_key, arith,
}
use clunk.Ir.Opcode.{Opcode}
use clunk.Ir.Predicate.{CmpPredicate, of_code, is_integer_predicate}
use clunk.Ir.Function.{Value, as_constant_int, Instruction}
use clunk.Meaning.{icmp_meaning}
use clunk.KnownBits.Exact.{extended}
use clunk.KnownBits.Extended.{extended-mod}
use clunk.KnownBits.Compare.{slt64-extended}
use clunk.Interpreter.Values.{mask_unsigned, compared_width, compare_values, apply_icmp}
use clunk.Interpreter.Execute.{
  Context, ExecResult, bind_value, bind_result, resolve, resolve_at, with_operands, execute_branch,
  execute_op, execute,
}
use clunk.Interpreter.Bound.{as_op, bound-resolve}
use clunk.Interpreter.Casts.{mask_unsigned-mod, extended-lt}

module _ (w x y : ℕ) (p : 1 < w) (h : w ≤ 64) (a : x < 2 ^ w) (b : y < 2 ^ w) where
  masked : (z : ℕ) → z < 2 ^ w → mask_unsigned (extended w z) w ≡ z
  masked z c =
      mask_unsigned-mod w (extended w z) (omega arith) h (extended-lt w z h c)
      ∙ extended-mod w z h c

  same : (extended w x == extended w y) ≡ (x == y)
  same =
      let back : extended w x ≡ extended w y → x ≡ y =
        λ e. sym (extended-mod w x h a) ∙ ap (λ (t : ℕ). t % 2 ^ w) e ∙ extended-mod w y h b in
      let there : x ≡ y → extended w x ≡ extended w y = λ e. ap (extended w) e in
      ground (arith, back, there)

  -- The operands, kept as extended patterns, compare as LLVM compares the patterns.
  pub compare_values-meaning :
      (q : CmpPredicate)
      → is_integer_predicate q ≡ true
      → compare_values q
          (extended w x)
          (extended w y)
          (mask_unsigned (extended w x) w)
          (mask_unsigned (extended w y) w)
        ≡ some (icmp_meaning q w x y)
  unfolding compare_values icmp_meaning is_integer_predicate
  compare_values-meaning CmpPredicate.eq k = ap some same
  compare_values-meaning CmpPredicate.ne k = ap (λ t. some (not t)) same
  compare_values-meaning CmpPredicate.ugt k = rw (masked x a, masked y b) refl
  compare_values-meaning CmpPredicate.uge k = rw (masked x a, masked y b) refl
  compare_values-meaning CmpPredicate.ult k = rw (masked x a, masked y b) refl
  compare_values-meaning CmpPredicate.ule k = rw (masked x a, masked y b) refl
  compare_values-meaning CmpPredicate.sgt k = ap some (slt64-extended w y x p h b a)
  compare_values-meaning CmpPredicate.sge k =
      ap (λ t. some (not t)) (slt64-extended w x y p h a b) ∙ ap some (ground arith)
  compare_values-meaning CmpPredicate.slt k = ap some (slt64-extended w x y p h a b)
  compare_values-meaning CmpPredicate.sle k =
      ap (λ t. some (not t)) (slt64-extended w y x p h b a) ∙ ap some (ground arith)
  compare_values-meaning _ k = absurd (cc)

  apply_icmp-meaning :
      (stoi : String → Option ℕ) (cmp : Instruction) (text : String) (n : ℕ) (q : CmpPredicate)
      → lookup "pred" cmp.metadata ≡ some text
      → stoi text ≡ some n
      → of_code (n % 2 ^ 8) ≡ some q
      → is_integer_predicate q ≡ true
      → compared_width cmp.operands ≡ w
      → apply_icmp stoi cmp (extended w x) (extended w y)
        ≡ some (if icmp_meaning q w x y then 1 else 0)
  unfolding apply_icmp
  apply_icmp-meaning stoi cmp text n q found number named integer width =
      rw (apply_icmp, found, number, named, width, compare_values-meaning q integer) refl

branch_on :
    (ctx : Context) (jump : Instruction) (c : Value) (on_true on_false : String) (b : Bool)
    → jump.operands ≡ some c ∷ []
    → resolve ctx c ≡ some (if b then 1 else 0)
    → lookup "true_bb" jump.metadata ≡ some on_true
    → lookup "false_bb" jump.metadata ≡ some on_false
    → execute_branch ctx jump ≡ ExecResult.branched (if b then on_true else on_false)
unfolding execute_branch resolve_at
branch_on ctx jump c on_true on_false true ops value t f =
    rw (execute_branch, resolve_at, ops, value, t, f) refl
branch_on ctx jump c on_true on_false false ops value t f =
    rw (execute_branch, resolve_at, ops, value, t, f) refl

-- A comparison of integers of 2 to 64 bits, kept as extended patterns, and a branch on its result: both
-- run, and the branch goes to the block under "true_bb" where LLVM's comparison of the patterns holds, and
-- to that under "false_bb" where it does not.
pub execute_compare_branch :
    (stoi : String → Option ℕ) (ctx : Context) (cmp jump : Instruction) (c : Value)
    (prev text on_true on_false : String) (q : CmpPredicate) (n w x y : ℕ)
    → cmp.opcode ≡ Opcode.icmp
    → lookup "pred" cmp.metadata ≡ some text
    → stoi text ≡ some n
    → of_code (n % 2 ^ 8) ≡ some q
    → is_integer_predicate q ≡ true
    → compared_width cmp.operands ≡ w
    → 1 < w
    → w ≤ 64
    → x < 2 ^ w
    → y < 2 ^ w
    → resolve_at ctx cmp 0 ≡ some (extended w x)
    → resolve_at ctx cmp 1 ≡ some (extended w y)
    → jump.opcode ≡ Opcode.br
    → jump.operands ≡ some c ∷ []
    → as_constant_int c.kind ≡ none
    → c.address ≡ cmp.address
    → lookup "true_bb" jump.metadata ≡ some on_true
    → lookup "false_bb" jump.metadata ≡ some on_false
    → (after : Context) × (execute stoi ctx cmp prev ≡ ExecResult.continued after)
      × (execute stoi after jump prev
          ≡ ExecResult.branched (if icmp_meaning q w x y then on_true else on_false))
unfolding execute_op with_operands bind_result
execute_compare_branch stoi ctx cmp jump c prev text on_true on_false q n w x y is_cmp found number
      named integer width p h a b left right is_br ops variable same_address t f =
    let answer : ℕ = if icmp_meaning q w x y then 1 else 0 in
    let compared =
      apply_icmp-meaning w x y p h a b stoi cmp text n q found number named integer width in
    let after = bind_value ctx cmp.address answer in
    (
      after,
      as_op stoi ctx cmp prev Opcode.icmp is_cmp (rw (with_operands, left, right, compared) refl),
      as_op stoi after jump prev Opcode.br is_br (
          branch_on after jump c on_true on_false (icmp_meaning q w x y) ops
            (bound-resolve ctx c cmp.address answer variable same_address) t f),
    )
