-- ===== src/KnownBits/Rules.antt =====
-- Casts, opcodes with no rule, and the meet of a `phi`, on described operands.
use Prim.Native.String.{String}
use mathlib.Core.Path.{subst}
use clunk.Base.{
  ℕ, zero, suc, ◌+◌, ◌-◌, ◌^◌, ◌≤◌, ◌<◌, ◌≡◌, ap, ◌∙◌, true, false, ◌==◌, Option, some, length,
  string_key, inl, inr, ◌⊎◌, arith,
}
use native.Mathlib.Nat.{le_refl}
use clunk.Base.Bits.{bit, bit-bit_and}
use clunk.Ir.Opcode.{Opcode}
use clunk.Ir.Function.{Instruction}
use native.Mathlib.Decide.{dec_lt}
use clunk.Meaning.{cast_meaning, sign_fill}
use clunk.KnownBits.Lattice.{KnownBits, meet}
use clunk.KnownBits.Analysis.{Env, operand_at, meet_from, known_bits_phi, transfer}
use clunk.KnownBits.Masks.{Holds}
use clunk.KnownBits.Bitwise.{unknown-Holds}
use clunk.KnownBits.Casts.{trunc-Holds, zext-Holds, sext-Holds}
use clunk.KnownBits.Program.{is_opaque, is_extension}
use clunk.KnownBits.Operands.{Describes, defined}

pub cast-Holds :
    (stoul : String → Option ℕ) (op : Opcode) (inst : Instruction) (env : Env) (w v x r : ℕ)
    → v ≤ 64
    → ((op ≡ Opcode.trunc) × (v ≤ w)) ⊎ ((is_extension op ≡ true) × (w ≤ v))
    → Describes (operand_at inst v env 0) w x
    → cast_meaning op w v x ≡ some r
    → Holds (transfer stoul op inst v env) r
unfolding transfer cast_meaning is_extension
cast-Holds stoul Opcode.trunc inst env w v x r h c a e =
    subst (Holds _) (defined e) (trunc-Holds (operand_at inst v env 0) v x h a.holds)
cast-Holds stoul Opcode.zext inst env w v x r h (inl c) a e = cc (c.0)
cast-Holds stoul Opcode.zext inst env w v x r h (inr c) a e =
    subst (Holds _) (defined e)
      (zext-Holds (operand_at inst v env 0) v x (omega (arith, a.width_eq, c.1)) h a.holds)
cast-Holds stoul Opcode.sext inst env w v x r h (inl c) a e = cc (c.0)
cast-Holds stoul Opcode.sext inst env w v x r h (inr c) a e =
    subst (Holds _) (ap (λ (t : ℕ). x + sign_fill t x (2 ^ v - 2 ^ t)) a.width_eq ∙ defined e)
      (sext-Holds (operand_at inst v env 0) v x (omega (arith, a.width_eq, c.1)) h a.holds)
cast-Holds stoul _ inst env w v x r h c a e = cc

pub opaque-Holds :
    (stoul : String → Option ℕ) (op : Opcode) (inst : Instruction) (env : Env) (w r : ℕ)
    → is_opaque op ≡ true
    → r < 2 ^ w
    → Holds (transfer stoul op inst w env) r
unfolding transfer is_opaque
opaque-Holds stoul Opcode.add inst env w r o p = cc
opaque-Holds stoul Opcode.sub inst env w r o p = cc
opaque-Holds stoul Opcode.mul inst env w r o p = cc
opaque-Holds stoul Opcode.and inst env w r o p = cc
opaque-Holds stoul Opcode.or inst env w r o p = cc
opaque-Holds stoul Opcode.xor inst env w r o p = cc
opaque-Holds stoul Opcode.shl inst env w r o p = cc
opaque-Holds stoul Opcode.lshr inst env w r o p = cc
opaque-Holds stoul Opcode.ashr inst env w r o p = cc
opaque-Holds stoul Opcode.trunc inst env w r o p = cc
opaque-Holds stoul Opcode.zext inst env w r o p = cc
opaque-Holds stoul Opcode.sext inst env w r o p = cc
opaque-Holds stoul Opcode.select inst env w r o p = cc
opaque-Holds stoul Opcode.phi inst env w r o p = cc
opaque-Holds stoul Opcode.icmp inst env w r o p = cc
opaque-Holds stoul _ inst env w r o p = unknown-Holds w r p

-- `a` claims no bit that `b` does not claim.
record Weaker (a b : KnownBits) : Type 0 where
  zeros_le : (i : ℕ) → bit a.zero i ≤ bit b.zero i
  ones_le : (i : ℕ) → bit a.one i ≤ bit b.one i

meet-Weaker : (a b : KnownBits) → Weaker (meet a b) a × Weaker (meet a b) b
unfolding meet
meet-Weaker a b = (
  record {
    zeros_le = λ i. omega (arith, bit-bit_and a.zero b.zero i);
    ones_le = λ i. omega (arith, bit-bit_and a.one b.one i);
  },
  record {
    zeros_le = λ i. omega (arith, bit-bit_and a.zero b.zero i);
    ones_le = λ i. omega (arith, bit-bit_and a.one b.one i);
  },
)

Weaker-trans : {a b c : KnownBits} → Weaker a b → Weaker b c → Weaker a c
Weaker-trans p q = record {
  zeros_le = λ i. omega (arith, p.zeros_le i, q.zeros_le i);
  ones_le = λ i. omega (arith, p.ones_le i, q.ones_le i);
}

-- A weaker claim at the same width holds of what the stronger one holds of.
Weaker-Holds :
    (a b : KnownBits) (w x : ℕ)
    → Weaker a b
    → b.width ≡ w
    → Holds b x
    → Holds (record a { width = w }) x
Weaker-Holds a b w x k e h = record {
  within = subst (λ (t : ℕ). x < 2 ^ t) e h.within;
  clean = λ i p. omega (arith, k.zeros_le i, h.clean i (omega arith));
  zeros = λ i. omega (arith, k.zeros_le i, h.zeros i);
  ones = λ i. omega (arith, k.ones_le i, h.ones i);
}

-- The meet over the operands of a `phi` is weaker than each.
module _ (inst : Instruction) (w : ℕ) (env : Env) where
  meet_from-acc : (left i : ℕ) (acc : KnownBits) → Weaker (meet_from inst w env left i acc) acc
  unfolding meet_from
  meet_from-acc zero i acc = record { zeros_le = λ i. le_refl _; ones_le = λ i. le_refl _ }
  meet_from-acc (suc left) i acc =
      Weaker-trans (meet_from-acc left (i + 1) _) (meet-Weaker acc (operand_at inst w env i)).0

  meet_from-at :
      (left i j : ℕ) (acc : KnownBits)
      → i ≤ j
      → j < i + left
      → Weaker (meet_from inst w env left i acc) (operand_at inst w env j)
  unfolding meet_from
  meet_from-at zero i j acc le lt = absurd (omega arith)
  meet_from-at (suc left) i j acc le lt = elim (dec_lt i j) [
    | yes later ↦ meet_from-at left (i + 1) j _ (omega arith) (omega arith)
    | no here ↦
        let eq : i ≡ j = omega arith in
        subst (λ (t : ℕ). Weaker (meet_from inst w env (suc left) i acc) (operand_at inst w env t))
          eq
          (Weaker-trans (meet_from-acc left (i + 1) _)
            (meet-Weaker acc (operand_at inst w env i)).1)
  ]

  all_operands-Weaker :
      (j : ℕ)
      → j < length inst.operands
      → Weaker
          (meet_from inst w env (length inst.operands - 1) 1 (operand_at inst w env 0))
          (operand_at inst w env j)
  all_operands-Weaker j p = elim (dec_lt 0 j) [
    | yes later ↦ meet_from-at (length inst.operands - 1) 1 j _ (omega arith) (omega arith)
    | no first ↦
        let eq : 0 ≡ j = omega arith in
        subst
          (λ (t : ℕ).
            Weaker (meet_from inst w env (length inst.operands - 1) 1 (operand_at inst w env 0))
              (operand_at inst w env t))
          eq (meet_from-acc (length inst.operands - 1) 1 (operand_at inst w env 0))
  ]

  pub phi-Holds :
      (j x : ℕ)
      → j < length inst.operands
      → Describes (operand_at inst w env j) w x
      → Holds (known_bits_phi inst w env) x
  unfolding known_bits_phi
  phi-Holds j x p d =
      let some_operand : (length inst.operands == 0) ≡ false = ground arith in
      rw some_operand
        (Weaker-Holds _ (operand_at inst w env j) w x (all_operands-Weaker j p) d.width_eq d.holds)
