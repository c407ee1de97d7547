-- ===== src/Prune/Masked.antt =====
-- An `and` that the pass removes for its operand computes that operand.
use native.Mathlib.Decide.{dec_lt}
use mathlib.Core.Option
use mathlib.Core.Path.{subst}
use clunk.Base.{
  ℕ, ◌%◌, ◌^◌, ◌≡◌, ◌<◌, ◌≤◌, refl, sym, ap, ◌∙◌, true, ◌&&◌, bit_and, bit_or, Option, some, none,
  List, [], ◌∷◌, Bool-cases, inl, inr, arith,
}
use clunk.Base.Bits.{bit, bit_ext, bit-bit_and, bit-bit_or, bit_beyond, bit-le-one}
use clunk.Base.Fields.{bit_and_mask}
use clunk.Ir.Opcode.{Opcode}
use clunk.Ir.Function.{integer_type, bit_width, is_integer, Value, has_name, Instruction}
use clunk.Meaning.{binary_meaning}
use clunk.KnownBits.Analysis.{Env, integer_width, has_integer_type, operand_known_bits}
use clunk.KnownBits.Lattice.{KnownBits, mask_for_width}
use clunk.KnownBits.Masks.{Holds, bit_mask, mask_for_width_lem}
use clunk.KnownBits.Operands.{Describes}
use clunk.Prune.Folds.{
  Binding, resolve_all, constant_operand, covers, covered, is_and, masked_operand, redundant_mask,
}

-- The conjunction with a constant that covers every bit which the operand might have set.
covers-bit_and :
    (kb : KnownBits) (w c x : ℕ)
    → w ≤ 64
    → Holds kb x
    → x < 2 ^ w
    → covers kb w c ≡ true
    → bit_and x (bit_and c (mask_for_width w)) ≡ x
unfolding covers
covers-bit_and kb w c x narrow h fits full = bit_ext _ _ λ i. elim (dec_lt i w) [
  | yes below ↦
      let m = mask_for_width w in
      let cb = bit_and c m in
      let all : bit_and (bit_or kb.zero cb) m ≡ m = ground (arith, full) in
      omega (
        arith,
        ap (λ (t : ℕ). bit t i) all,
        bit-bit_and (bit_or kb.zero cb) m i,
        bit-bit_or kb.zero cb i,
        bit-bit_and x cb i,
        bit_mask w i narrow below,
        h.zeros i,
        bit-le-one x i,
      )
  | no above ↦
      omega
        (arith, bit-bit_and x (bit_and c (mask_for_width w)) i, bit_beyond w x i fits (omega arith))
]

and_only : (o : Opcode) → is_and o ≡ true → o ≡ Opcode.and
unfolding is_and
and_only Opcode.and h = refl
and_only _ h = absurd (cc)

-- The operand and the constant that a redundant mask is recognised by.
covered_parts :
    (env : Env) (lhs : Option Value) (k : Option ℕ) (v : Value)
    → covered env lhs k ≡ some v
    → (c : ℕ) × (lhs ≡ some v)
      × (k ≡ some c)
      × (covers (operand_known_bits (some v) env) (integer_width v.type) c ≡ true)
unfolding covered
covered_parts env lhs none v e = absurd (cc)
covered_parts env none (some c) v e = absurd (cc)
covered_parts env (some u) (some c) v e =
    let h : has_integer_type u.type
          && covers (operand_known_bits (some u) env) (integer_width u.type) c
        ≡ true =
      elim (Bool-cases (
        has_integer_type u.type
        && covers (operand_known_bits (some u) env) (integer_width u.type) c)) [
          | inl yes_it_is ↦ yes_it_is
          | inr not_it ↦ absurd (ground (arith, e))
        ] in
    let same : u ≡ v = Option.some_inj.0 (ground (arith, e, h)) in
    (
      c,
      ap some same,
      refl,
      subst
          (λ (t : Value). covers (operand_known_bits (some t) env) (integer_width t.type) c ≡ true)
          same (ground (arith, h)),
    )

masked_parts :
    (env : Env) (operands : List (Option Value)) (v : Value)
    → masked_operand env operands ≡ some v
    → (o : Option Value) × (c : ℕ) × (operands ≡ some v ∷ o ∷ [])
      × (constant_operand o ≡ some c)
      × (covers (operand_known_bits (some v) env) (integer_width v.type) c ≡ true)
unfolding masked_operand
masked_parts env [] v e = absurd (cc)
masked_parts env (a ∷ []) v e = absurd (cc)
masked_parts env (a ∷ b ∷ []) v e =
    let (c, left, right, full) = covered_parts env a (constant_operand b) v e in
    (b, c, ap (λ (t : Option Value). t ∷ b ∷ []) left, right, full)
masked_parts env (a ∷ b ∷ _ ∷ _) v e = absurd (cc)

-- Where the pass puts the operand `v` in the place of an instruction, the instruction is an `and` of `v`
-- and a constant, and computes from every pattern of `v` that its facts allow that pattern.
pub redundant_mask-meaning :
    (env : Env) (binding : Binding) (inst : Instruction) (v : Value) (w x : ℕ)
    → redundant_mask env binding inst ≡ some v
    → v.type ≡ some (integer_type w)
    → w ≤ 64
    → Describes (operand_known_bits (some v) env) w x
    → (o : Option Value) × (c : ℕ) × (resolve_all binding inst.operands ≡ some v ∷ o ∷ [])
      × (constant_operand o ≡ some c)
      × (binary_meaning inst.opcode w x (c % 2 ^ w) ≡ some x)
unfolding redundant_mask
redundant_mask-meaning env binding inst v w x e typed narrow d =
    elim (Bool-cases (has_name inst.name && is_and inst.opcode)) [
      | inr other ↦ absurd (ground (arith, e))
      | inl found ↦
          let (o, c, operands, constant, full) =
            masked_parts env (resolve_all binding inst.operands) v (simp found at e) in
          let kb = operand_known_bits (some v) env in
          let width : integer_width v.type ≡ w =
            ap integer_width typed ∙ unfold integer_width is_integer bit_width in refl in
          let low : bit_and c (mask_for_width w) ≡ c % 2 ^ w =
            ap (bit_and c) (mask_for_width_lem w narrow) ∙ bit_and_mask w c in
          let fits : x < 2 ^ w = subst (λ (t : ℕ). x < 2 ^ t) d.width_eq d.holds.within in
          (
            o,
            c,
            operands,
            constant,
            ap (λ (t : Opcode). binary_meaning t w x (c % 2 ^ w))
                  (and_only inst.opcode (ground (arith, found)))
                ∙ unfold binary_meaning in
                  ap some (
                    ap (bit_and x) (sym low)
                    ∙ covers-bit_and kb w c x narrow d.holds fits
                        (ap (λ (t : ℕ). covers kb t c) (sym width) ∙ full)),
          )
    ]
