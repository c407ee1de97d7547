-- ===== src/KnownBits/Program.antt =====
-- What the instructions of a program can produce at run time, as a relation, independent of the
-- analysis. `runs name x` says that the value `name` may have the pattern `x`, at any time and in any
-- round of a loop.
use Prim.Native.String.{String}
use clunk.Base.{
  ℕ, ◌^◌, ◌%◌, ◌≤◌, ◌<◌, ◌≡◌, Bool, ◌&&◌, ◌||◌, List, true, false, ◌⊎◌, if◌then◌else◌, ◌==◌, Option,
  some, none, [], ◌∷◌, get_elem?, string_key,
}
use clunk.Ir.Opcode.{Opcode}
use clunk.Ir.Predicate.{CmpPredicate}
use clunk.Ir.Function.{
  IrType, BasicBlock, Value, as_constant_int, has_name, Instruction, integer_type,
}
use clunk.Meaning.{binary_meaning, cast_meaning, icmp_meaning}
use clunk.KnownBits.Analysis.{cmp_predicate, integer_width}
use clunk.KnownBits.Compare.{is_signed}

abbrev pub Runs : Type 1
Runs = String → ℕ → Type 0

-- The width at which each name is used.
abbrev pub Widths : Type 0
Widths = String → ℕ

-- The opcodes that the analysis has no rule for; of what they produce only the width is known.
unfoldable pub is_opaque : Opcode → Bool
is_opaque Opcode.add = false
is_opaque Opcode.sub = false
is_opaque Opcode.mul = false
is_opaque Opcode.and = false
is_opaque Opcode.or = false
is_opaque Opcode.xor = false
is_opaque Opcode.shl = false
is_opaque Opcode.lshr = false
is_opaque Opcode.ashr = false
is_opaque Opcode.trunc = false
is_opaque Opcode.zext = false
is_opaque Opcode.sext = false
is_opaque Opcode.select = false
is_opaque Opcode.phi = false
is_opaque Opcode.icmp = false
is_opaque _ = true

unfoldable pub is_extension : Opcode → Bool
is_extension Opcode.zext = true
is_extension Opcode.sext = true
is_extension _ = false

-- What the code gets wrong (src/Analysis/KnownBits.cpp:55): a signed order of `i1` operands, which the
-- analysis reads as 0 and 1 where LLVM reads them as 0 and -1.
unfoldable pub is_icmp : Opcode → Bool
is_icmp Opcode.icmp = true
is_icmp _ = false

unfoldable pub is_signed_order : Option CmpPredicate → Bool
is_signed_order none = false
is_signed_order (some p) = is_signed p

unfoldable pub first_is_bit : List (Option Value) → Bool
first_is_bit (some v ∷ rest) = integer_width v.type == 1
first_is_bit _ = false

module _ (stoul : String → Option ℕ) where
  unfoldable pub compares_signed_bits : Instruction → Bool
  compares_signed_bits inst =
      is_icmp inst.opcode
      && (is_signed_order (cmp_predicate stoul inst) && first_is_bit inst.operands)

  unfoldable pub any_compares_signed_bits : List Instruction → Bool
  any_compares_signed_bits [] = false
  any_compares_signed_bits (inst ∷ rest) =
      compares_signed_bits inst || any_compares_signed_bits rest

  unfoldable pub blocks_compare_signed_bits : List BasicBlock → Bool
  blocks_compare_signed_bits [] = false
  blocks_compare_signed_bits (b ∷ rest) =
      any_compares_signed_bits b.instrs || blocks_compare_signed_bits rest

module _ (stoul : String → Option ℕ) (widths : Widths) (runs : Runs) where
  -- The operand `v` has an integer type of `w` bits and may read as `x`.
  pub record Reads (v : Value) (w x : ℕ) : Type 0 where
    pub typed : v.type ≡ some (integer_type w)
    pub positive : 0 < w
    pub narrow : w ≤ 64
    pub within : x < 2 ^ w
    pub constant : (c : ℕ) → as_constant_int v.kind ≡ some c → c % 2 ^ w ≡ x
    pub named :
        as_constant_int v.kind ≡ none → has_name v.name ≡ true → (widths v.name ≡ w) × runs v.name x

  -- `inst` may produce the integer `r`: a rule for each kind of instruction that the analysis knows, on
  -- integer operands of at most 64 bits that are not poison, with the meaning of LLVM; a comparison of
  -- pointers may give either bit, and an instruction of another kind any pattern of its width. An
  -- instruction whose type is no integer produces none.
  pub data Produces (inst : Instruction) (r : ℕ) : Type 0 where
    by_binary :
        {a b : Value} (w x y : ℕ)
        → inst.operands ≡ some a ∷ some b ∷ []
        → inst.type ≡ some (integer_type w)
        → Reads a w x
        → Reads b w y
        → binary_meaning inst.opcode w x y ≡ some r
        → Produces inst r
    by_cast :
        {a : Value} (w v x : ℕ)
        → inst.operands ≡ some a ∷ []
        → inst.type ≡ some (integer_type v)
        → 0 < v
        → v ≤ 64
        → ((inst.opcode ≡ Opcode.trunc) × (v ≤ w)) ⊎ ((is_extension inst.opcode ≡ true) × (w ≤ v))
        → Reads a w x
        → cast_meaning inst.opcode w v x ≡ some r
        → Produces inst r
    by_icmp :
        {a b : Value} (w x y : ℕ) (p : CmpPredicate)
        → inst.opcode ≡ Opcode.icmp
        → inst.operands ≡ some a ∷ some b ∷ []
        → inst.type ≡ some (integer_type 1)
        → cmp_predicate stoul inst ≡ some p
        → Reads a w x
        → Reads b w y
        → (if icmp_meaning p w x y then 1 else 0) ≡ r
        → Produces inst r
    by_pointer_icmp :
        {a b : Value} (s t : IrType) (m n : ℕ)
        → inst.opcode ≡ Opcode.icmp
        → inst.operands ≡ some a ∷ some b ∷ []
        → inst.type ≡ some (integer_type 1)
        → a.type ≡ some (IrType.pointer_type s m)
        → b.type ≡ some (IrType.pointer_type t n)
        → r < 2
        → Produces inst r
    by_select :
        {c a b : Value} (w z x y : ℕ)
        → inst.opcode ≡ Opcode.select
        → inst.operands ≡ some c ∷ some a ∷ some b ∷ []
        → inst.type ≡ some (integer_type w)
        → Reads c 1 z
        → Reads a w x
        → Reads b w y
        → (if z == 0 then y else x) ≡ r
        → Produces inst r
    by_phi :
        {a : Value} (w i : ℕ)
        → inst.opcode ≡ Opcode.phi
        → inst.type ≡ some (integer_type w)
        → get_elem? inst.operands i ≡ some (some a)
        → Reads a w r
        → Produces inst r
    by_opaque :
        (w : ℕ)
        → 0 < w
        → is_opaque inst.opcode ≡ true
        → inst.type ≡ some (integer_type w)
        → r < 2 ^ w
        → Produces inst r
