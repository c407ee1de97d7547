-- ===== src/KnownBits/Width.antt =====
-- The width of a result is that of the instruction's type.
use Prim.Native.String.{String}
use clunk.Base.{ℕ, ◌≡◌, refl, ◌∙◌, Bool, true, false, arith, Option, some, none}
use clunk.Ir.Opcode.{Opcode}
use clunk.Ir.Predicate.{CmpPredicate}
use clunk.Ir.Function.{Instruction}
use clunk.Meaning.{binary_meaning, cast_meaning}
use clunk.KnownBits.Lattice.{KnownBits, unknown, exact, meet}
use clunk.KnownBits.Transfer.{
  low_zeros, known_bits_add_sub, known_bits_mul, known_bits_shl, known_bits_lshr, known_bits_ashr,
  with_sign, known_bits_sext, known_bits_select, known_bits_icmp, known_bits_and, known_bits_or,
  known_bits_xor, known_bits_trunc, known_bits_zext,
}
use clunk.KnownBits.Program.{is_opaque}
use clunk.KnownBits.Analysis.{Env, operand_at, transfer, known_bits_phi}

add_sub-width : (l r : KnownBits) (b : Bool) → (known_bits_add_sub l r b).width ≡ l.width
unfolding known_bits_add_sub low_zeros exact unknown
add_sub-width l r b = ground arith

mul-width : (l r : KnownBits) → (known_bits_mul l r).width ≡ l.width
unfolding known_bits_mul low_zeros exact unknown
mul-width l r = ground arith

shl-width : (l r : KnownBits) → (known_bits_shl l r).width ≡ l.width
unfolding known_bits_shl unknown
shl-width l r = ground arith

lshr-width : (l r : KnownBits) → (known_bits_lshr l r).width ≡ l.width
unfolding known_bits_lshr unknown
lshr-width l r = ground arith

with_sign-width :
    (src : KnownBits) (bit ext : ℕ) (kb : KnownBits) → (with_sign src bit ext kb).width ≡ kb.width
unfolding with_sign
with_sign-width src bit ext kb = ground arith

ashr-width : (l r : KnownBits) → (known_bits_ashr l r).width ≡ l.width
unfolding known_bits_ashr unknown with_sign
ashr-width l r = ground arith

sext-width : (src : KnownBits) (v : ℕ) → (known_bits_sext src v).width ≡ v
unfolding known_bits_sext with_sign
sext-width src v = ground arith

pub icmp-width : (p : Option CmpPredicate) (l r : KnownBits) → (known_bits_icmp p l r).width ≡ 1
unfolding known_bits_icmp exact unknown
icmp-width none l r = ground arith
icmp-width (some CmpPredicate.eq) l r = ground arith
icmp-width (some _) l r = ground arith

pub select-width :
    (c a b : KnownBits) (w : ℕ) → a.width ≡ w → b.width ≡ w → (known_bits_select c a b).width ≡ w
unfolding known_bits_select meet
select-width c a b w p q = ground arith

pub phi-width : (inst : Instruction) (w : ℕ) (env : Env) → (known_bits_phi inst w env).width ≡ w
unfolding known_bits_phi unknown
phi-width inst w env = ground arith

module _ (stoul : String → Option ℕ) (inst : Instruction) (w : ℕ) (env : Env) where
  -- An operation on operands of its own width, or one with no rule.
  pub binary-width :
      (op : Opcode) (x y r : ℕ)
      → (operand_at inst w env 0).width ≡ w
      → binary_meaning op w x y ≡ some r
      → (transfer stoul op inst w env).width ≡ w
  unfolding transfer binary_meaning
  binary-width Opcode.add x y r e m = add_sub-width _ _ false ∙ e
  binary-width Opcode.sub x y r e m = add_sub-width _ _ true ∙ e
  binary-width Opcode.mul x y r e m = mul-width _ _ ∙ e
  binary-width Opcode.and x y r e m = unfold known_bits_and in e
  binary-width Opcode.or x y r e m = unfold known_bits_or in e
  binary-width Opcode.xor x y r e m = unfold known_bits_xor in e
  binary-width Opcode.shl x y r e m = shl-width _ _ ∙ e
  binary-width Opcode.lshr x y r e m = lshr-width _ _ ∙ e
  binary-width Opcode.ashr x y r e m = ashr-width _ _ ∙ e
  binary-width Opcode.udiv x y r e m = unfold unknown in refl
  binary-width Opcode.urem x y r e m = unfold unknown in refl
  binary-width _ x y r e m = cc

  pub cast-width :
      (op : Opcode) (v x r : ℕ)
      → cast_meaning op v w x ≡ some r
      → (transfer stoul op inst w env).width ≡ w
  unfolding transfer cast_meaning
  cast-width Opcode.trunc v x r m = unfold known_bits_trunc in refl
  cast-width Opcode.zext v x r m = unfold known_bits_zext in refl
  cast-width Opcode.sext v x r m = sext-width _ w
  cast-width _ v x r m = cc

  pub opaque-width : (op : Opcode) → is_opaque op ≡ true → (transfer stoul op inst w env).width ≡ w
  unfolding transfer is_opaque unknown
  opaque-width Opcode.add o = cc
  opaque-width Opcode.sub o = cc
  opaque-width Opcode.mul o = cc
  opaque-width Opcode.and o = cc
  opaque-width Opcode.or o = cc
  opaque-width Opcode.xor o = cc
  opaque-width Opcode.shl o = cc
  opaque-width Opcode.lshr o = cc
  opaque-width Opcode.ashr o = cc
  opaque-width Opcode.trunc o = cc
  opaque-width Opcode.zext o = cc
  opaque-width Opcode.sext o = cc
  opaque-width Opcode.select o = cc
  opaque-width Opcode.phi o = cc
  opaque-width Opcode.icmp o = cc
  opaque-width _ o = refl
