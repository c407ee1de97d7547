-- ===== src/KnownBits/Environment.antt =====
-- The environment that the analysis of a function leaves is sound.
use Prim.Native.String.{String}
use mathlib.Core.Path.{subst, subst₂}
use clunk.Base.{
  ℕ, ◌<◌, ◌≡◌, sym, ◌∙◌, Bool, true, false, not, ◌||◌, ltb, Option, some, List, [], ◌∷◌, length,
  lookup, insert, lookup-insert_cases, string_key, Bool-cases, inl, inr, arith,
}
use clunk.Ir.Opcode.{Opcode, is_terminator}
use clunk.Ir.Function.{has_name, Instruction, integer_type, BasicBlock, Function}
use clunk.KnownBits.Lattice.{KnownBits, unknown}
use clunk.KnownBits.Analysis.{
  Env, integer_width, operand_at, transfer, compute_known_bits, analyse_instruction,
  analyse_instructions, analyse_blocks, analyse_known_bits,
}
use clunk.KnownBits.Program.{
  Runs, Widths, Produces, by_binary, by_cast, by_icmp, by_pointer_icmp, by_select, by_phi,
  by_opaque, compares_signed_bits, any_compares_signed_bits, blocks_compare_signed_bits,
}
use clunk.KnownBits.Operands.{Describes, integer_width-typed, EnvHolds, at-Describes}
use clunk.KnownBits.Width.{
  binary-width, cast-width, opaque-width, icmp-width, select-width, phi-width,
}
use clunk.KnownBits.Soundness.{computes, compute_known_bits-Holds}

or-false : {a b : Bool} → (a || b) ≡ false → (a ≡ false) × (b ≡ false)
or-false h = (ground arith, ground arith)

module _ (stoul : String → Option ℕ) (widths : Widths) (runs : Runs) where
  module _ (env : Env) (sound : EnvHolds stoul widths runs env) where
    select_rule-width :
        (inst : Instruction) (w : ℕ)
        → (operand_at inst w env 1).width ≡ w
        → (operand_at inst w env 2).width ≡ w
        → (transfer stoul Opcode.select inst w env).width ≡ w
    unfolding transfer
    select_rule-width inst w p q = select-width _ _ _ w p q

    icmp_rule-width : (inst : Instruction) → (transfer stoul Opcode.icmp inst 1 env).width ≡ 1
    unfolding transfer unknown
    icmp_rule-width inst = elim (Bool-cases (ltb (length inst.operands) 2)) [
      | inl few ↦ rw few
      | inr enough ↦ rw enough (icmp-width _ _ _)
    ]

    phi_rule-width : (inst : Instruction) (w : ℕ) → (transfer stoul Opcode.phi inst w env).width ≡ w
    unfolding transfer
    phi_rule-width inst w = phi-width inst w env

    as_opcode-width :
        (inst : Instruction) (w : ℕ) (op : Opcode)
        → inst.opcode ≡ op
        → (transfer stoul op inst w env).width ≡ w
        → (transfer stoul inst.opcode inst w env).width ≡ w
    as_opcode-width inst w op e h = subst (λ o. (transfer stoul o inst w env).width ≡ w) (sym e) h

    typed-width :
        (inst : Instruction) (w : ℕ)
        → inst.type ≡ some (integer_type w)
        → 0 < w
        → (transfer stoul inst.opcode inst w env).width ≡ w
        → (compute_known_bits stoul inst env).width ≡ integer_width inst.type
    typed-width inst w t p e =
        rw (computes stoul widths runs env sound inst w t p)
          (e ∙ sym (integer_width-typed inst.type w t))

    compute_known_bits-width :
        (inst : Instruction) (r : ℕ)
        → Produces stoul widths runs inst r
        → (compute_known_bits stoul inst env).width ≡ integer_width inst.type
    compute_known_bits-width inst r (by_binary {a} {b} w x y ops t ra rb m) =
        typed-width inst w t ra.positive (
          binary-width stoul inst w env inst.opcode x y r
            (at-Describes stoul widths runs env sound inst w 0 a w x (rw ops) ra).width_eq m)
    compute_known_bits-width inst r (by_cast w v x ops t pos le kind ra m) =
        typed-width inst v t pos (cast-width stoul inst v env inst.opcode w x r m)
    compute_known_bits-width inst r (by_icmp w x y p op ops t pred ra rb m) =
        typed-width inst 1 t (omega arith)
          (as_opcode-width inst 1 Opcode.icmp op (icmp_rule-width inst))
    compute_known_bits-width inst r (by_pointer_icmp s u m n op ops t ta tb h) =
        typed-width inst 1 t (omega arith)
          (as_opcode-width inst 1 Opcode.icmp op (icmp_rule-width inst))
    compute_known_bits-width inst r (by_select {c} {a} {b} w z x y op ops t rc ra rb m) =
        typed-width inst w t ra.positive (
          as_opcode-width inst w Opcode.select op (
            select_rule-width inst w
              (at-Describes stoul widths runs env sound inst w 1 a w x (rw ops) ra).width_eq
              (at-Describes stoul widths runs env sound inst w 2 b w y (rw ops) rb).width_eq))
    compute_known_bits-width inst r (by_phi w i op t e ra) =
        typed-width inst w t ra.positive
          (as_opcode-width inst w Opcode.phi op (phi_rule-width inst w))
    compute_known_bits-width inst r (by_opaque w pos o t p) =
        typed-width inst w t pos (opaque-width stoul inst w env inst.opcode o)

    -- The fact for an instruction has the width of its type and holds of whatever it produces.
    pub compute_known_bits-Describes :
        (inst : Instruction) (r : ℕ)
        → compares_signed_bits stoul inst ≡ false
        → Produces stoul widths runs inst r
        → Describes (compute_known_bits stoul inst env) (integer_width inst.type) r
    compute_known_bits-Describes inst r plain p = record {
      width_eq = compute_known_bits-width inst r p;
      holds = compute_known_bits-Holds stoul widths runs env sound inst r plain p;
    }

  -- A value of the name comes from the instruction, at the width of its type. A terminator defines no
  -- value, and nothing is asked of an instruction without a name.
  pub record Defines (inst : Instruction) : Type 0 where
    pub own_width : has_name inst.name ≡ true → widths inst.name ≡ integer_width inst.type
    pub origin :
        has_name inst.name ≡ true → (r : ℕ) → runs inst.name r → Produces stoul widths runs inst r

  abbrev pub AllDefine : List Instruction → Type 0
  AllDefine [] = Unit
  AllDefine (inst ∷ rest) = Defines inst × AllDefine rest

  abbrev pub BlocksDefine : List BasicBlock → Type 0
  BlocksDefine [] = Unit
  BlocksDefine (b ∷ rest) = AllDefine b.instrs × BlocksDefine rest

  insert_sound :
      (env : Env) (inst : Instruction)
      → EnvHolds stoul widths runs env
      → compares_signed_bits stoul inst ≡ false
      → Defines inst
      → has_name inst.name ≡ true
      → EnvHolds stoul widths runs (insert inst.name (compute_known_bits stoul inst env) env)
  insert_sound env inst sound plain d named name kb x found run =
      let new = compute_known_bits stoul inst env in
      elim (lookup-insert_cases inst.name name new kb env found) [
        | inr old ↦ sound name kb x old run
        | inl (same, e) ↦
            let produced = d.origin named x (subst (λ t. runs t x) (sym same) run) in
            let known = compute_known_bits-Describes env sound inst x plain produced in
            subst₂ (λ k n. Describes k (widths n) x) e same
              (record { width_eq = known.width_eq ∙ sym (d.own_width named); holds = known.holds })
      ]

  analyse_instruction_sound :
      (env : Env) (inst : Instruction)
      → EnvHolds stoul widths runs env
      → compares_signed_bits stoul inst ≡ false
      → Defines inst
      → EnvHolds stoul widths runs (analyse_instruction stoul inst env)
  unfolding analyse_instruction
  analyse_instruction_sound env inst sound plain d =
      elim (Bool-cases (not (has_name inst.name) || is_terminator inst.opcode)) [
        | inl skipped ↦ rw skipped sound
        | inr kept ↦ rw kept (insert_sound env inst sound plain d (ground arith))
      ]

  analyse_instructions_sound :
      (insts : List Instruction) (env : Env)
      → EnvHolds stoul widths runs env
      → any_compares_signed_bits stoul insts ≡ false
      → AllDefine insts
      → EnvHolds stoul widths runs (analyse_instructions stoul insts env)
  unfolding analyse_instructions any_compares_signed_bits
  analyse_instructions_sound [] env sound plain d = sound
  analyse_instructions_sound (inst ∷ rest) env sound plain d =
      let (first, later) = or-false plain in
      analyse_instructions_sound rest (analyse_instruction stoul inst env)
        (analyse_instruction_sound env inst sound first d.0) later d.1

  analyse_blocks_sound :
      (blocks : List BasicBlock) (env : Env)
      → EnvHolds stoul widths runs env
      → blocks_compare_signed_bits stoul blocks ≡ false
      → BlocksDefine blocks
      → EnvHolds stoul widths runs (analyse_blocks stoul blocks env)
  unfolding analyse_blocks blocks_compare_signed_bits
  analyse_blocks_sound [] env sound plain d = sound
  analyse_blocks_sound (b ∷ rest) env sound plain d =
      let (first, later) = or-false plain in
      analyse_blocks_sound rest (analyse_instructions stoul b.instrs env)
        (analyse_instructions_sound b.instrs env sound first d.0) later d.1

  pub analyse_known_bits_sound :
      (fn : Function)
      → blocks_compare_signed_bits stoul fn.blocks ≡ false
      → BlocksDefine fn.blocks
      → EnvHolds stoul widths runs (analyse_known_bits stoul fn)
  unfolding analyse_known_bits
  analyse_known_bits_sound fn plain d =
      analyse_blocks_sound fn.blocks [] (λ name kb x found run. absurd (unfold lookup in cc)) plain
        d

  -- What the analysis of a function records for a name holds, at the name's width, of every value that
  -- the name can have. It is asked that every named instruction of the function has the width of its type
  -- and only values that it produces, poison aside, from values of its operands; that integer operands and
  -- the results of casts have at most 64 bits; and that no instruction is a signed order of `i1` operands.
  pub analyse_known_bits-Describes :
      (fn : Function) (name : String) (kb : KnownBits) (x : ℕ)
      → blocks_compare_signed_bits stoul fn.blocks ≡ false
      → BlocksDefine fn.blocks
      → lookup name (analyse_known_bits stoul fn) ≡ some kb
      → runs name x
      → Describes kb (widths name) x
  analyse_known_bits-Describes fn name kb x plain d found run =
      analyse_known_bits_sound fn plain d name kb x found run
