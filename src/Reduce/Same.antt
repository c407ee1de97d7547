-- ===== src/Reduce/Same.antt =====
-- The instructions that replace a remainder compute what it computes.
use Prim.Native.String.{String}
use native.Mathlib.Nat.{mod-eq_of_lt, one-le-pow, add-mod_right, pow-suc}
use clunk.Base.{
  ℕ, zero, suc, ◌+◌, ◌-◌, ◌%◌, ◌^◌, ◌≡◌, ◌≢◌, ◌<◌, ◌≤◌, refl, sym, ap, ◌∙◌, true, if◌then◌else◌,
  ◌==◌, Option, some, none, List, [], ◌∷◌, bit_and, Dict, lookup, insert, lookup-insert, string_key,
  Option-cases, ◌⊎◌, inl, inr, arith,
}
use clunk.Base.Fields.{bit_and_mask}
use clunk.Ir.Opcode.{Opcode}
use clunk.Ir.Function.{IrType, integer_type, Value, as_constant_int, is_integer, Instruction}
use clunk.Ir.Clone.{as_value, new_instruction}
use clunk.Meaning.{binary_meaning}
use clunk.KnownBits.Analysis.{Env, operand_known_bits}
use clunk.KnownBits.Masks.{Holds}
use clunk.PowersOfTwo.Classify.{Pow2Fact, operand_pow2_fact}
use clunk.PowersOfTwo.Sound.{IsPowerOfTwo, Says, classify_pow2_sound}
use clunk.Reduce.Urem.{
  is_urem, is_pow2_or_zero, is_reducible, operand_of, one_type, Progress, mask_name, mask_of,
  reduced, reduce_instruction,
}

-- The patterns that the names stand for.
abbrev pub State : Type 0
State = Dict String ℕ

-- What an operand reads as at the width `w`.
unfoldable pub constant_or_name : ℕ → State → String → Option ℕ → Option ℕ
constant_or_name w ρ name (some c) = some (c % 2 ^ w)
constant_or_name w ρ name none = lookup name ρ

unfoldable pub read : ℕ → State → Option Value → Option ℕ
read w ρ none = none
read w ρ (some v) = constant_or_name w ρ v.name (as_constant_int v.kind)

unfoldable pub meaning_of : Opcode → ℕ → Option ℕ → Option ℕ → Option ℕ
meaning_of opcode w (some x) (some y) = binary_meaning opcode w x y
meaning_of opcode w _ _ = none

unfoldable pub store : String → Option ℕ → State → Option State
store name none ρ = none
store name (some r) ρ = some (insert name r ρ)

-- One binary instruction; `none` is poison, undefined behaviour or a name without a value.
unfoldable pub evaluate : ℕ → Instruction → State → Option State
evaluate w inst ρ =
    store inst.name
      (meaning_of inst.opcode w (read w ρ (operand_of inst 0)) (read w ρ (operand_of inst 1))) ρ

unfoldable pub evaluate_all : ℕ → List Instruction → Option State → Option State
evaluate_all w [] ρ = ρ
evaluate_all w (i ∷ rest) none = none
evaluate_all w (i ∷ rest) (some ρ) = evaluate_all w rest (evaluate w i ρ)

-- A pattern less one, at the width `w`.
less_one : (w y : ℕ) → 0 < y → y < 2 ^ w → (y + (2 ^ w - 1)) % 2 ^ w ≡ y - 1
less_one w y pos fits =
    let split : y + (2 ^ w - 1) ≡ (y - 1) + 2 ^ w = omega arith in
    ap (λ (t : ℕ). t % 2 ^ w) split ∙ add-mod_right (y - 1) (2 ^ w) ∙ mod-eq_of_lt (omega arith)

-- The remainder by a power of two, or by zero for which it is the dividend.
mask_meaning :
    (w x y : ℕ)
    → x < 2 ^ w
    → y < 2 ^ w
    → (y ≡ 0) ⊎ IsPowerOfTwo y
    → bit_and x ((y + (2 ^ w - 1)) % 2 ^ w) ≡ (if y == 0 then x else x % y)
mask_meaning w x y fx fy (inl e) =
    let all : (y + (2 ^ w - 1)) % 2 ^ w ≡ 2 ^ w - 1 =
      ap (λ (t : ℕ). (t + (2 ^ w - 1)) % 2 ^ w) e ∙ mod-eq_of_lt (omega arith) ∙ omega arith in
    ap (bit_and x) all ∙ bit_and_mask w x ∙ mod-eq_of_lt fx ∙ ground arith
mask_meaning w x y fx fy (inr (k, e)) =
    let pos : 0 < y = omega (arith, e, one-le-pow k 2) in
    ap (bit_and x) (less_one w y pos fy ∙ ap (λ (t : ℕ). t - 1) e)
    ∙ bit_and_mask k x
    ∙ ap (λ (t : ℕ). x % t) (sym e)
    ∙ ground arith

Says-pow2_or_zero :
    (fact : Pow2Fact) (y : ℕ) → is_pow2_or_zero fact ≡ true → Says fact y → (y ≡ 0) ⊎ IsPowerOfTwo y
unfolding is_pow2_or_zero
Says-pow2_or_zero Pow2Fact.unknown y h s = absurd (cc)
Says-pow2_or_zero Pow2Fact.not_power_of_two y h s = absurd (cc)
Says-pow2_or_zero Pow2Fact.power_of_two y h s = inr s
Says-pow2_or_zero Pow2Fact.zero_or_power_of_two y h s = s

one_fits : (w : ℕ) → 0 < w → 1 % 2 ^ w ≡ 1
one_fits zero pos = absurd (omega arith)
one_fits (suc w) pos = mod-eq_of_lt (omega (arith, pow-suc 2 w, one-le-pow w 2))

evaluate_binary :
    (w : ℕ) (inst : Instruction) (ρ : State) (x y r : ℕ)
    → read w ρ (operand_of inst 0) ≡ some x
    → read w ρ (operand_of inst 1) ≡ some y
    → binary_meaning inst.opcode w x y ≡ some r
    → evaluate w inst ρ ≡ some (insert inst.name r ρ)
unfolding evaluate meaning_of store
evaluate_binary w inst ρ x y r ex ey er = rw (ex, ey, er)

read_inserted :
    (w m : ℕ) (ρ : State) (v : Value)
    → as_constant_int v.kind ≡ none
    → read w (insert v.name m ρ) (some v) ≡ some m
unfolding read constant_or_name
read_inserted w m ρ v e =
    rw e (ground (arith, lookup-insert v.name v.name m ρ, string_key.same_iff v.name v.name))

read_other :
    (w m : ℕ) (ρ : State) (name : String) (v : Value)
    → name ≢ v.name
    → read w (insert name m ρ) (some v) ≡ read w ρ (some v)
unfolding read constant_or_name
read_other w m ρ name v apart = elim (Option-cases (as_constant_int v.kind)) [
  | inr (c, e) ↦ rw e
  | inl e ↦ rw e (ground (arith, lookup-insert name v.name m ρ, string_key.same_iff name v.name))
]

urem_only : (o : Opcode) → is_urem o ≡ true → o ≡ Opcode.urem
unfolding is_urem
urem_only Opcode.urem h = refl
urem_only _ h = absurd (cc)

reducible_parts :
    (env : Env) (inst : Instruction)
    → is_reducible env inst ≡ true
    → (inst.opcode ≡ Opcode.urem)
      × (is_pow2_or_zero (operand_pow2_fact (operand_of inst 1) env) ≡ true)
unfolding is_reducible
reducible_parts env inst h = (urem_only inst.opcode (ground (arith, h)), ground (arith, h))

module _ (to_string : ℕ → String) where
  -- The mask, and the conjunction with it.
  evaluate-reduced :
      (w : ℕ) (inst : Instruction) (one : IrType) (p : Progress) (ρ : State) (x y : ℕ) (a b : Value)
      → 0 < w
      → inst.operands ≡ some a ∷ some b ∷ []
      → mask_name to_string inst p.rewritten ≢ a.name
      → read w ρ (some a) ≡ some x
      → read w ρ (some b) ≡ some y
      → evaluate_all w (reduced to_string (some one) inst p).instrs (some ρ)
        ≡ some (
            insert inst.name
              (bit_and x ((y + (2 ^ w - 1)) % 2 ^ w))
              (insert (mask_name to_string inst p.rewritten) ((y + (2 ^ w - 1)) % 2 ^ w) ρ))
  unfolding evaluate_all reduced
  evaluate-reduced w inst one p ρ x y a b pos operands apart ex ey =
      let mask = mask_of to_string inst one p in
      let m = (y + (2 ^ w - 1)) % 2 ^ w in
      let at0 : operand_of inst 0 ≡ some a = rw operands in
      let at1 : operand_of inst 1 ≡ some b = rw operands in
      let first : evaluate w mask ρ ≡ some (insert mask.name m ρ) =
        evaluate_binary w mask ρ y 1 m (ap (read w ρ) at1 ∙ ey)
          (unfold read constant_or_name as_constant_int in ap some (one_fits w pos))
          (unfold binary_meaning in refl) in
      let andi =
        new_instruction Opcode.and (p.fresh + 2) inst.type inst.name
          (operand_of inst 0 ∷ some (as_value mask) ∷ []) in
      ap (evaluate_all w (andi ∷ [])) first
      ∙ evaluate_binary w andi (insert mask.name m ρ) x m (bit_and x m)
          (ap (read w (insert mask.name m ρ)) at0 ∙ read_other w m ρ mask.name a apart ∙ ex)
          (read_inserted w m ρ (as_value mask) (unfold as_constant_int in refl))
          (unfold binary_meaning in refl)

  -- A reducible remainder by a divisor `y` that the analysis describes is replaced by instructions that
  -- run, and that leave the remainder where it has a meaning and the dividend where `y` is 0.
  pub reduce_instruction_same :
      (env : Env) (w : ℕ) (inst : Instruction) (p : Progress) (ρ : State) (x y : ℕ) (a b : Value)
      → 0 < w
      → x < 2 ^ w
      → y < 2 ^ w
      → inst.type ≡ some (integer_type w)
      → inst.operands ≡ some a ∷ some b ∷ []
      → mask_name to_string inst p.rewritten ≢ a.name
      → read w ρ (some a) ≡ some x
      → read w ρ (some b) ≡ some y
      → Holds (operand_known_bits (some b) env) y
      → (operand_known_bits (some b) env).width ≤ 64
      → is_reducible env inst ≡ true
      → (r m : ℕ) × (evaluate_all w (reduce_instruction to_string env inst p).instrs (some ρ)
          ≡ some (insert inst.name r (insert (mask_name to_string inst p.rewritten) m ρ)))
        × (y ≡ 0 → r ≡ x)
        × (y ≢ 0 → evaluate w inst ρ ≡ some (insert inst.name r ρ))
  unfolding reduce_instruction
  reduce_instruction_same env w inst p ρ x y a b pos fx fy typed operands apart ex ey holds narrow
        reducible =
      let m = (y + (2 ^ w - 1)) % 2 ^ w in
      let at0 : operand_of inst 0 ≡ some a = rw operands in
      let at1 : operand_of inst 1 ≡ some b = rw operands in
      let (is_rem, fact) = reducible_parts env inst reducible in
      let pow2 : (y ≡ 0) ⊎ IsPowerOfTwo y =
        Says-pow2_or_zero (operand_pow2_fact (some b) env) y
          (ap (λ (o : Option Value). is_pow2_or_zero (operand_pow2_fact o env)) (sym at1) ∙ fact)
          (unfold operand_pow2_fact in
            classify_pow2_sound (operand_known_bits (some b) env) y narrow holds) in
      let result = mask_meaning w x y fx fy pow2 in
      (
        bit_and x m,
        m,
        rw reducible (
            ap
              (λ (t : Option IrType).
                evaluate_all w (reduced to_string (one_type t) inst p).instrs (some ρ))
              typed
            ∙ unfold one_type is_integer in
              evaluate-reduced w inst (integer_type w) p ρ x y a b pos operands apart ex ey),
        λ zero_divisor. result ∙ ground (arith, zero_divisor),
        λ nonzero.
            evaluate_binary w inst ρ x y (bit_and x m) (ap (read w ρ) at0 ∙ ex)
              (ap (read w ρ) at1 ∙ ey)
              (ap (λ (o : Opcode). binary_meaning o w x y) is_rem
                ∙ unfold binary_meaning in ground (arith, result, nonzero)),
      )
