-- ===== src/KnownBits/Constant.antt =====
-- What a caller of the analysis folds: a name whose bits are all known.
use Prim.Native.String.{String}
use clunk.Base.{
  ℕ, ◌^◌, ◌%◌, ◌≤◌, ◌≡◌, sym, ap, ◌∙◌, true, false, Option, some, lookup, string_key, arith,
}
use clunk.Ir.Function.{IrType, Function}
use clunk.KnownBits.Lattice.{KnownBits, is_fully_known, signed_value}
use clunk.KnownBits.Analysis.{analyse_known_bits, known_bits_constant}
use clunk.KnownBits.Exact.{extended, fully_known-one, signed_value-extended}
use clunk.KnownBits.Extended.{extended-mod}
use clunk.KnownBits.Program.{Runs, Widths, blocks_compare_signed_bits}
use clunk.KnownBits.Operands.{Describes, Describes-within}
use clunk.KnownBits.Environment.{BlocksDefine, analyse_known_bits_sound}

constant_of_known :
    (kb : KnownBits) (ty : Option IrType) (c : ℕ)
    → known_bits_constant kb ty ≡ some c
    → (is_fully_known kb ≡ true) × (signed_value kb ≡ c)
unfolding known_bits_constant
constant_of_known kb ty c e = ground arith

known_value :
    (kb : KnownBits) (w x : ℕ)
    → w ≤ 64
    → Describes kb w x
    → is_fully_known kb ≡ true
    → signed_value kb ≡ extended w x
known_value kb w x h d known =
    let wide : kb.width ≤ 64 = omega (arith, d.width_eq) in
    let one_x = fully_known-one kb x wide d.holds known in
    signed_value-extended kb wide (rw one_x d.holds.within)
    ∙ ap (extended kb.width) one_x
    ∙ ap (λ (t : ℕ). extended t x) d.width_eq

-- Where the analysis of a function pins a name of at most 64 bits to a constant, that is the only value
-- the name can have, read as the 64-bit extension of its pattern. It is asked that every named instruction
-- of the function has the width of its type and only values that it produces, poison aside, from values of
-- its operands; that integer operands and the results of casts have at most 64 bits; and that no
-- instruction is a signed order of `i1` operands.
pub known_bits_constant_unique :
    (stoul : String → Option ℕ) (widths : Widths) (runs : Runs) (fn : Function) (name : String)
    (kb : KnownBits) (ty : Option IrType) (c x : ℕ)
    → blocks_compare_signed_bits stoul fn.blocks ≡ false
    → BlocksDefine stoul widths runs fn.blocks
    → lookup name (analyse_known_bits stoul fn) ≡ some kb
    → known_bits_constant kb ty ≡ some c
    → widths name ≤ 64
    → runs name x
    → (c ≡ extended (widths name) x) × (c % 2 ^ widths name ≡ x)
known_bits_constant_unique stoul widths runs fn name kb ty c x plain d found folds narrow run =
    let k = analyse_known_bits_sound stoul widths runs fn plain d name kb x found run in
    let (known, e) = constant_of_known kb ty c folds in
    let v = sym e ∙ known_value kb (widths name) x narrow k known in
    (
      v,
      ap (λ (t : ℕ). t % 2 ^ widths name) v
          ∙ extended-mod (widths name) x narrow (Describes-within k),
    )
