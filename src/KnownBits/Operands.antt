-- ===== src/KnownBits/Operands.antt =====
-- Binary operations on described operands, and operands read through a sound environment.
use Prim.Native.String.{String}
use mathlib.Core.Path.{subst}
use native.Mathlib.Nat.{div-le_self, mod-le}
use clunk.Base.{
  ℕ, ◌+◌, ◌-◌, ◌*◌, ◌^◌, ◌%◌, ◌≤◌, ◌<◌, ◌≡◌, refl, sym, ap, ◌∙◌, true, Option, some, get_elem?,
  lookup, string_key, Option-cases, Bool-cases, inl, inr, arith,
}
use clunk.Ir.Opcode.{Opcode}
use clunk.Ir.Function.{
  IrType, is_integer, bit_width, Value, as_constant_int, has_name, Instruction, integer_type,
}
use clunk.Meaning.{binary_meaning}
use clunk.KnownBits.Lattice.{KnownBits, unknown, exact}
use clunk.KnownBits.Analysis.{
  Env, integer_width, named_known_bits, operand_known_bits, operand_at, transfer, has_integer_type,
}
use clunk.KnownBits.Masks.{Holds}
use clunk.KnownBits.Exact.{exact-Holds}
use clunk.KnownBits.Arithmetic.{add-Holds, sub-Holds, mul-Holds}
use clunk.KnownBits.Bitwise.{unknown-Holds, and-Holds, or-Holds, xor-Holds}
use clunk.KnownBits.Shifts.{shl-Holds, lshr-Holds}
use clunk.KnownBits.Extends.{ashr-Holds}
use clunk.KnownBits.Program.{Runs, Widths, Reads}

-- A description of `w` bits that holds of `x`.
pub record Describes (kb : KnownBits) (w x : ℕ) : Type 0 where
  pub width_eq : kb.width ≡ w
  pub holds : Holds kb x

pub unknown-Describes : (w x : ℕ) → x < 2 ^ w → Describes (unknown w) w x
unfolding unknown
unknown-Describes w x p = record { width_eq = refl; holds = unknown-Holds w x p }

exact-Describes : (w c x : ℕ) → w ≤ 64 → c % 2 ^ w ≡ x → Describes (exact w c) w x
unfolding exact
exact-Describes w c x h e = record {
  width_eq = refl;
  holds = subst (Holds (exact w c)) e (exact-Holds w c h);
}

pub Describes-within : {kb : KnownBits} {w x : ℕ} → Describes kb w x → x < 2 ^ w
Describes-within {x = x} d = subst (λ (t : ℕ). x < 2 ^ t) d.width_eq d.holds.within

udiv_bound : (w x y r : ℕ) → binary_meaning Opcode.udiv w x y ≡ some r → r ≤ x
unfolding binary_meaning
udiv_bound w x y r e = ground (arith, div-le_self x y)

urem_bound : (w x y r : ℕ) → binary_meaning Opcode.urem w x y ≡ some r → r ≤ x
unfolding binary_meaning
urem_bound w x y r e = ground (arith, mod-le x y)

pub defined : {a b : ℕ} → some a ≡ some b → a ≡ b
defined h = cc

-- What a binary operation makes of described operands.
module _ (inst : Instruction) (env : Env) (stoul : String → Option ℕ) (w x y r : ℕ) (h : w ≤ 64)
    (a : Describes (operand_at inst w env 0) w x)
    (b : Describes (operand_at inst w env 1) w y) where
  abbrev left : KnownBits
  left = operand_at inst w env 0

  abbrev right : KnownBits
  right = operand_at inst w env 1

  wide : left.width ≤ 64
  wide = omega (arith, a.width_eq)

  same : right.width ≡ left.width
  same = b.width_eq ∙ sym a.width_eq

  at_width : (f : ℕ → ℕ) → f w ≡ r → f left.width ≡ r
  at_width f e = ap f a.width_eq ∙ e

  as_meaning :
      (op : Opcode) → binary_meaning op w x y ≡ some r → binary_meaning op left.width x y ≡ some r
  as_meaning op e = ap (λ (t : ℕ). binary_meaning op t x y) a.width_eq ∙ e

  modular : (kb : KnownBits) (f : ℕ → ℕ) → f w ≡ r → Holds kb (f left.width) → Holds kb r
  modular kb f e k = subst (Holds kb) (at_width f e) k

  bounded : r ≤ x → Holds (unknown w) r
  bounded le = unknown-Holds w r (omega (arith, Describes-within a))

  pub binary-Holds :
      (op : Opcode) → binary_meaning op w x y ≡ some r → Holds (transfer stoul op inst w env) r
  unfolding transfer binary_meaning
  binary-Holds Opcode.add e =
      modular _ (λ t. (x + y) % 2 ^ t) (defined e)
        (add-Holds left right x y wide same a.holds b.holds)
  binary-Holds Opcode.sub e =
      modular _ (λ t. (x + (2 ^ t - y)) % 2 ^ t) (defined e)
        (sub-Holds left right x y wide same a.holds b.holds)
  binary-Holds Opcode.mul e =
      modular _ (λ t. (x * y) % 2 ^ t) (defined e)
        (mul-Holds left right x y wide same a.holds b.holds)
  binary-Holds Opcode.and e =
      subst (Holds _) (defined e) (and-Holds left right x y same a.holds b.holds)
  binary-Holds Opcode.or e =
      subst (Holds _) (defined e) (or-Holds left right x y same a.holds b.holds)
  binary-Holds Opcode.xor e =
      subst (Holds _) (defined e) (xor-Holds left right x y same a.holds b.holds)
  binary-Holds Opcode.shl e =
      shl-Holds left right x y wide same a.holds b.holds r (as_meaning Opcode.shl e)
  binary-Holds Opcode.lshr e =
      lshr-Holds left right x y wide same a.holds b.holds r (as_meaning Opcode.lshr e)
  binary-Holds Opcode.ashr e =
      ashr-Holds left right x y wide same a.holds b.holds r (as_meaning Opcode.ashr e)
  binary-Holds Opcode.udiv e = bounded (udiv_bound w x y r e)
  binary-Holds Opcode.urem e = bounded (urem_bound w x y r e)
  binary-Holds _ e = cc

pub integer_width-typed :
    (t : Option IrType) (w : ℕ) → t ≡ some (integer_type w) → integer_width t ≡ w
unfolding integer_width is_integer bit_width
integer_width-typed t w e = rw e

module _ (stoul : String → Option ℕ) (widths : Widths) (runs : Runs) where
  -- Every fact of the environment has the width of its name and holds of every value that the name may
  -- have.
  abbrev pub EnvHolds : Env → Type 0
  EnvHolds env =
      (name : String) (kb : KnownBits) (x : ℕ)
      → lookup name env ≡ some kb
      → runs name x
      → Describes kb (widths name) x

  module _ (env : Env) (sound : EnvHolds env) where
    named-Describes :
        (name : String) (w x : ℕ)
        → x < 2 ^ w
        → (has_name name ≡ true → (widths name ≡ w) × runs name x)
        → Describes (named_known_bits name w env) w x
    unfolding named_known_bits
    named-Describes name w x p k = elim (Bool-cases (has_name name)) [
      | inr anonymous ↦ rw anonymous (unknown-Describes w x p)
      | inl named ↦
          let (eq, run) = k named in
          elim (Option-cases (lookup name env)) [
            | inl missing ↦ rw (named, missing) (unknown-Describes w x p)
            | inr (kb, found) ↦
                rw (named, found)
                  (let d = sound name kb x found run in
                    record { width_eq = d.width_eq ∙ eq; holds = d.holds })
          ]
    ]

    pub operand-Describes :
        (v : Value) (w x : ℕ)
        → Reads stoul widths runs v w x
        → Describes (operand_known_bits (some v) env) w x
    unfolding operand_known_bits is_integer
    operand-Describes v w x k =
        let iw = integer_width-typed v.type w k.typed in
        let int : has_integer_type v.type ≡ true = rw (k.typed) in
        elim (Option-cases (as_constant_int v.kind)) [
          | inr (c, e) ↦ rw (int, e, iw) (exact-Describes w c x k.narrow (k.constant c e))
          | inl e ↦ rw (int, e, iw) (named-Describes v.name w x k.within (k.named e))
        ]

    pub operand_at-eq :
        (inst : Instruction) (w i : ℕ) (v : Option Value)
        → get_elem? inst.operands i ≡ some v
        → operand_at inst w env i ≡ operand_known_bits v env
    unfolding operand_at
    operand_at-eq inst w i v e = rw (e, operand_at)

    pub at-Describes :
        (inst : Instruction) (width i : ℕ) (v : Value) (w x : ℕ)
        → get_elem? inst.operands i ≡ some (some v)
        → Reads stoul widths runs v w x
        → Describes (operand_at inst width env i) w x
    at-Describes inst width i v w x e k =
        rw (operand_at-eq inst width i (some v) e) (operand-Describes v w x k)
