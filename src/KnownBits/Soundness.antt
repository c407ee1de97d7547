-- ===== src/KnownBits/Soundness.antt =====
-- The facts of the analysis hold of every value that a program produces.
use Prim.Native.String.{String}
use mathlib.Core.Path.{subst}
use clunk.Base.{
  ℕ, zero, suc, ◌≤◌, ◌<◌, ◌≡◌, refl, none, sym, ◌∙◌, true, false, if◌then◌else◌, ◌==◌, ltb, Option,
  some, List, [], ◌∷◌, get_elem?, length, string_key, arith,
}
use clunk.Ir.Opcode.{Opcode}
use clunk.Ir.Predicate.{CmpPredicate}
use clunk.Ir.Function.{IrType, is_integer, bit_width, Value, Instruction, integer_type}
use clunk.Meaning.{icmp_meaning}
use clunk.KnownBits.Transfer.{known_bits_icmp}
use clunk.KnownBits.Analysis.{
  Env, integer_width, operand_at, operand_known_bits, other_width, transfer, compute_known_bits,
  cmp_predicate,
}
use clunk.KnownBits.Lattice.{unknown, is_fully_known, mask_for_width}
use clunk.KnownBits.Bitwise.{unknown-Holds}
use clunk.KnownBits.Masks.{Holds}
use clunk.KnownBits.Compare.{icmp-Holds, select-Holds, is_signed}
use clunk.KnownBits.Program.{
  Runs, Widths, Reads, Produces, by_binary, by_cast, by_icmp, by_pointer_icmp, by_select, by_phi,
  by_opaque, compares_signed_bits, is_icmp, is_signed_order, first_is_bit,
}
use clunk.KnownBits.Operands.{
  Describes, binary-Holds, integer_width-typed, EnvHolds, operand_at-eq, at-Describes,
}
use clunk.KnownBits.Rules.{cast-Holds, opaque-Holds, phi-Holds}

index_in_range {ℓ} :
    {A : Type ℓ} (xs : List A) (i : ℕ) (x : A) → get_elem? xs i ≡ some x → i < length xs
index_in_range [] i x e = cc
index_in_range (y ∷ xs) zero x e = omega arith
index_in_range (y ∷ xs) (suc i) x e = omega (arith, index_in_range xs i x e)

module _ (stoul : String → Option ℕ) (widths : Widths) (runs : Runs) where
  -- Where the signed orders of `i1` operands are left out, the operands of one have two bits at least.
  signed_wide :
      (inst : Instruction) (a b : Value) (w x : ℕ) (p : CmpPredicate)
      → compares_signed_bits stoul inst ≡ false
      → inst.opcode ≡ Opcode.icmp
      → inst.operands ≡ some a ∷ some b ∷ []
      → cmp_predicate stoul inst ≡ some p
      → Reads stoul widths runs a w x
      → is_signed p ≡ true
      → 1 < w
  unfolding compares_signed_bits is_icmp is_signed_order first_is_bit
  signed_wide inst a b w x p plain op ops pred ra s =
      let bit : compares_signed_bits stoul inst ≡ (integer_width a.type == 1) =
        rw (pred, s, op, ops) refl in
      ground (arith, ra.positive, bit, integer_width-typed a.type w ra.typed)

  module _ (env : Env) (sound : EnvHolds stoul widths runs env) where
    icmp-rule :
        (inst : Instruction) (a b : Value) (w x y : ℕ) (p : CmpPredicate)
        → inst.operands ≡ some a ∷ some b ∷ []
        → cmp_predicate stoul inst ≡ some p
        → (is_signed p ≡ true → 1 < w)
        → w ≤ 64
        → Describes (operand_at inst 1 env 0) w x
        → Describes (operand_at inst 1 env 1) w y
        → Holds (transfer stoul Opcode.icmp inst 1 env) (if icmp_meaning p w x y then 1 else 0)
    unfolding transfer
    icmp-rule inst a b w x y p ops pred signed h da db =
        let two : ltb (length inst.operands) 2 ≡ false = rw ops in
        rw (two, pred)
          (subst
            (λ (t : ℕ).
              Holds (known_bits_icmp (some p) (operand_at inst 1 env 0) (operand_at inst 1 env 1))
                (if icmp_meaning p t x y then 1 else 0))
            da.width_eq
            (icmp-Holds (operand_at inst 1 env 0) (operand_at inst 1 env 1) x y
              (omega (arith, da.width_eq)) (db.width_eq ∙ sym da.width_eq) da.holds db.holds p
              (λ s. omega (arith, signed s, da.width_eq))))

    select-rule :
        (inst : Instruction) (w z x y : ℕ)
        → Describes (operand_at inst w env 0) 1 z
        → Describes (operand_at inst w env 1) w x
        → Describes (operand_at inst w env 2) w y
        → Holds (transfer stoul Opcode.select inst w env) (if z == 0 then y else x)
    unfolding transfer
    select-rule inst w z x y dc da db =
        select-Holds (operand_at inst w env 0) (operand_at inst w env 1) (operand_at inst w env 2) z
          x y dc.width_eq (db.width_eq ∙ sym da.width_eq) dc.holds da.holds db.holds

    phi-rule :
        (inst : Instruction) (w i r : ℕ)
        → i < length inst.operands
        → Describes (operand_at inst w env i) w r
        → Holds (transfer stoul Opcode.phi inst w env) r
    unfolding transfer
    phi-rule inst w i r p d = phi-Holds inst w env i r p d

    pub computes :
        (inst : Instruction) (w : ℕ)
        → inst.type ≡ some (integer_type w)
        → 0 < w
        → compute_known_bits stoul inst env ≡ transfer stoul inst.opcode inst w env
    unfolding compute_known_bits
    computes inst w t p =
        let e = integer_width-typed inst.type w t in
        let nonzero : (w == 0) ≡ false = ground arith in rw (e, nonzero)

    as_opcode :
        (inst : Instruction) (w r : ℕ) (op : Opcode)
        → inst.opcode ≡ op
        → Holds (transfer stoul op inst w env) r
        → Holds (transfer stoul inst.opcode inst w env) r
    as_opcode inst w r op e h = subst (λ o. Holds (transfer stoul o inst w env) r) (sym e) h

    pointer-Describes :
        (inst : Instruction) (i : ℕ) (v : Value) (t : IrType) (n : ℕ)
        → get_elem? inst.operands i ≡ some (some v)
        → v.type ≡ some (IrType.pointer_type t n)
        → operand_at inst 1 env i ≡ unknown 64
    unfolding operand_known_bits is_integer other_width bit_width
    pointer-Describes inst i v t n e typed =
        rw (operand_at-eq stoul widths runs env sound inst 1 i (some v) e, typed) refl

    unknown_icmp-Holds :
        (p : Option CmpPredicate) (r : ℕ)
        → r < 2
        → Holds (known_bits_icmp p (unknown 64) (unknown 64)) r
    unfolding known_bits_icmp unknown is_fully_known mask_for_width
    unknown_icmp-Holds none r h = unknown-Holds 1 r h
    unknown_icmp-Holds (some CmpPredicate.eq) r h = unknown-Holds 1 r h
    unknown_icmp-Holds (some CmpPredicate.ne) r h = unknown-Holds 1 r h
    unknown_icmp-Holds (some _) r h = unknown-Holds 1 r h

    pointer_icmp-rule :
        (inst : Instruction) (a b : Value) (r : ℕ)
        → inst.operands ≡ some a ∷ some b ∷ []
        → operand_at inst 1 env 0 ≡ unknown 64
        → operand_at inst 1 env 1 ≡ unknown 64
        → r < 2
        → Holds (transfer stoul Opcode.icmp inst 1 env) r
    unfolding transfer
    pointer_icmp-rule inst a b r ops ea eb h =
        let two : ltb (length inst.operands) 2 ≡ false = rw ops in
        rw (two, ea, eb) (unknown_icmp-Holds (cmp_predicate stoul inst) r h)

    -- The fact that the analysis computes for an instruction holds of every integer that the instruction
    -- may produce, poison aside, where each fact of the environment has the width of its name and holds of
    -- the values of the name, integer operands and the results of casts have at most 64 bits, and the
    -- instruction is no signed order of `i1` operands.
    pub compute_known_bits-Holds :
        (inst : Instruction) (r : ℕ)
        → compares_signed_bits stoul inst ≡ false
        → Produces stoul widths runs inst r
        → Holds (compute_known_bits stoul inst env) r
    compute_known_bits-Holds inst r plain (by_binary {a} {b} w x y ops t ra rb m) =
        rw (computes inst w t ra.positive) (
          binary-Holds inst env stoul w x y r ra.narrow
            (at-Describes stoul widths runs env sound inst w 0 a w x (rw ops) ra)
            (at-Describes stoul widths runs env sound inst w 1 b w y (rw ops) rb) inst.opcode m)
    compute_known_bits-Holds inst r plain (by_cast {a} w v x ops t pos le kind ra m) =
        rw (computes inst v t pos) (
          cast-Holds stoul inst.opcode inst env w v x r le kind
            (at-Describes stoul widths runs env sound inst v 0 a w x (rw ops) ra) m)
    compute_known_bits-Holds inst r plain (by_icmp {a} {b} w x y p op ops t pred ra rb m) =
        rw (computes inst 1 t (omega arith)) (
          as_opcode inst 1 r Opcode.icmp op (
            subst (Holds _) m (
              icmp-rule inst a b w x y p ops pred (signed_wide inst a b w x p plain op ops pred ra)
                ra.narrow (at-Describes stoul widths runs env sound inst 1 0 a w x (rw ops) ra)
                (at-Describes stoul widths runs env sound inst 1 1 b w y (rw ops) rb))))
    compute_known_bits-Holds inst r plain (by_pointer_icmp {a} {b} s u m n op ops t ta tb h) =
        rw (computes inst 1 t (omega arith)) (
          as_opcode inst 1 r Opcode.icmp op (
            pointer_icmp-rule inst a b r ops (pointer-Describes inst 0 a s m (rw ops) ta)
              (pointer-Describes inst 1 b u n (rw ops) tb) h))
    compute_known_bits-Holds inst r plain (by_select {c} {a} {b} w z x y op ops t rc ra rb m) =
        rw (computes inst w t ra.positive) (
          as_opcode inst w r Opcode.select op (
            let dc = at-Describes stoul widths runs env sound inst w 0 c 1 z (rw ops) rc in
            let da = at-Describes stoul widths runs env sound inst w 1 a w x (rw ops) ra in
            let db = at-Describes stoul widths runs env sound inst w 2 b w y (rw ops) rb in
            subst (Holds _) m (select-rule inst w z x y dc da db)))
    compute_known_bits-Holds inst r plain (by_phi {a} w i op t e ra) =
        rw (computes inst w t ra.positive) (
          as_opcode inst w r Opcode.phi op (
            phi-rule inst w i r (index_in_range inst.operands i (some a) e)
              (at-Describes stoul widths runs env sound inst w i a w r e ra)))
    compute_known_bits-Holds inst r plain (by_opaque w pos o t p) =
        rw (computes inst w t pos) (opaque-Holds stoul inst.opcode inst env w r o p)
