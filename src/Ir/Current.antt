-- ===== src/Ir/Current.antt =====
-- In a copied function an operand is the object that the copy has under its name.
use Prim.Native.String.{String}
use mathlib.Core.Path.{subst}
use mathlib.Core.Option
use clunk.Base.{
  ℕ, zero, suc, ◌≡◌, refl, sym, ap, ◌∙◌, true, ◌==◌, Option, some, none, List, [], ◌∷◌, get_elem?,
  Dict, lookup, insert, map_values, lookup-map_values, lookup-insert_cases, string_key, Bool-cases,
  ◌⊎◌, inl, inr, arith,
}
use clunk.Ir.Function.{Value, has_name, Instruction, Function}
use clunk.Ir.Clone.{
  as_value, copy_blocks, without_blocks, define, define_all, define_blocks, pick, remap_operand,
  remap_operands, remapped, remap_instructions, remap_operands_by_name, deep_copy_function,
}
use clunk.Ir.Addresses.{
  instructions_of, Among, Among-cons, instructions_of-remap_blocks, define_blocks-define_all,
}

map_values-insert :
    (f : Instruction → Instruction) (k : String) (v : Instruction) (m : Dict String Instruction)
    → insert k (f v) (map_values f m) ≡ map_values f (insert k v m)
unfolding insert map_values
map_values-insert f k v [] = refl
map_values-insert f k v ((j, w) ∷ m) = ground (arith, map_values-insert f k v m)

define-remapped :
    (defs : Dict String Instruction) (i : Instruction) (m : Dict String Instruction)
    → define (remapped defs i) (map_values (remapped defs) m)
      ≡ map_values (remapped defs) (define i m)
unfolding define
define-remapped defs i m = elim (Bool-cases (has_name i.name)) [
  | inl named ↦ rw named (map_values-insert (remapped defs) i.name i m)
  | inr unnamed ↦ rw unnamed
]

define_all-remap_instructions :
    (defs : Dict String Instruction) (l : List Instruction) (m : Dict String Instruction)
    → define_all (remap_instructions defs l) (map_values (remapped defs) m)
      ≡ map_values (remapped defs) (define_all l m)
unfolding define_all remap_instructions
define_all-remap_instructions defs [] m = refl
define_all-remap_instructions defs (i ∷ rest) m =
    ap (define_all (remap_instructions defs rest)) (define-remapped defs i m)
    ∙ define_all-remap_instructions defs rest (define i m)

-- A definition stands under its own name.
own_name :
    (l : List Instruction) (name : String) (m : Dict String Instruction) (d : Instruction)
    → lookup name (define_all l m) ≡ some d
    → (d.name ≡ name) ⊎ (lookup name m ≡ some d)
unfolding define_all define
own_name [] name m d e = inr e
own_name (i ∷ rest) name m d e = elim (own_name rest name (define i m) d e) [
  | inl own ↦ inl own
  | inr f ↦ elim (Bool-cases (has_name i.name)) [
    | inr unnamed ↦ inr (ground (arith, f))
    | inl named ↦ elim (lookup-insert_cases i.name name i d m (ground (arith, f))) [
      | inl (key, same) ↦ inl (ap (λ (t : Instruction). t.name) (sym same) ∙ key)
      | inr old ↦ inr old
    ]
  ]
]

-- What is put in the place of an operand.
picked_current :
    (defs : Dict String Instruction) (u v : Value) (d : Instruction) (found : Option Instruction)
    → lookup u.name defs ≡ found
    → ((name : String) (e : Instruction) → lookup name defs ≡ some e → e.name ≡ name)
    → pick found u ≡ v
    → Option.map (remapped defs) (lookup v.name defs) ≡ some d
    → v.address ≡ d.address
unfolding pick
picked_current defs u v d none f own q e =
    absurd (ground (arith, ap (λ (t : Value). lookup t.name defs) q))
picked_current defs u v d (some x) f own q e = elim (Bool-cases (x.address == u.address)) [
  | inl same ↦
      let kept : u ≡ v = ground (arith, q) in
      let is_x : lookup v.name defs ≡ some x =
        ap (λ (t : Value). lookup t.name defs) (sym kept) ∙ f in
      let is_d : remapped defs x ≡ d =
        Option.some_inj.0 (ap (Option.map (remapped defs)) (sym is_x) ∙ e) in
      ap (λ (t : Value). t.address) (sym kept)
      ∙ ground (arith, same)
      ∙ ap (λ (t : Instruction). t.address) is_d
  | inr apart ↦
      let new : as_value x ≡ v = ground (arith, q) in
      let is_x : lookup v.name defs ≡ some x =
        ap (λ (t : Value). lookup t.name defs) (sym new)
        ∙ ap (λ (t : String). lookup t defs) (own u.name x f)
        ∙ f in
      let is_d : remapped defs x ≡ d =
        Option.some_inj.0 (ap (Option.map (remapped defs)) (sym is_x) ∙ e) in
      ap (λ (t : Value). t.address) (sym new) ∙ ap (λ (t : Instruction). t.address) is_d
]

remap_operand_current :
    (defs : Dict String Instruction) (o : Option Value) (v : Value) (d : Instruction)
    → ((name : String) (e : Instruction) → lookup name defs ≡ some e → e.name ≡ name)
    → remap_operand defs o ≡ some v
    → has_name v.name ≡ true
    → Option.map (remapped defs) (lookup v.name defs) ≡ some d
    → v.address ≡ d.address
unfolding remap_operand
remap_operand_current defs none v d own q named e = absurd (cc)
remap_operand_current defs (some u) v d own q named e = elim (Bool-cases (has_name u.name)) [
  | inr unnamed ↦
      let same : u ≡ v = Option.some_inj.0 (ground (arith, q)) in
      absurd (ground (arith, ap (λ (t : Value). has_name t.name) same))
  | inl u_named ↦
      picked_current defs u v d (lookup u.name defs) refl own
        (Option.some_inj.0 (ground (arith, q))) e
]

remap_operands_at :
    (defs : Dict String Instruction) (l : List (Option Value)) (k : ℕ) (p : Option Value)
    → get_elem? (remap_operands defs l) k ≡ some p
    → (o : Option Value) × (remap_operand defs o ≡ p)
unfolding remap_operands
remap_operands_at defs [] k p e = absurd (cc)
remap_operands_at defs (o ∷ rest) zero p e = (o, Option.some_inj.0 e)
remap_operands_at defs (o ∷ rest) (suc k) p e = remap_operands_at defs rest k p e

Among-remap_instructions :
    (defs : Dict String Instruction) (l : List Instruction) (i : Instruction)
    → Among i (remap_instructions defs l)
    → (j : Instruction) × (i ≡ remapped defs j)
unfolding remap_instructions
Among-remap_instructions defs [] i m = elim m [ ]
Among-remap_instructions defs (x ∷ rest) i m =
    elim (Among-cons i (remapped defs x) (remap_instructions defs rest) m) [
      | inl same ↦ (x, same)
      | inr there ↦ Among-remap_instructions defs rest i there
    ]

-- An operand of a copied instruction whose name is defined in the copy is the instruction of the copy.
pub deep_copy_function_current :
    (fresh : ℕ) (fn : Function) (i d : Instruction) (k : ℕ) (v : Value)
    → Among i (instructions_of (deep_copy_function fresh fn).blocks)
    → get_elem? i.operands k ≡ some (some v)
    → has_name v.name ≡ true
    → lookup v.name (define_blocks (deep_copy_function fresh fn).blocks []) ≡ some d
    → v.address ≡ d.address
unfolding deep_copy_function remap_operands_by_name
deep_copy_function_current fresh fn i d k v m at named e =
    let bare = copy_blocks fresh fn.blocks (without_blocks fn) in
    let defs = define_blocks bare.blocks [] in
    let l = instructions_of bare.blocks in
    let copy = remap_operands_by_name bare in
    let flat : instructions_of copy.blocks ≡ remap_instructions defs l =
      unfold remap_operands_by_name in instructions_of-remap_blocks defs bare.blocks in
    let (j, same) =
      Among-remap_instructions defs l i
        (subst (Among i) flat (unfold remap_operands_by_name in m)) in
    let (o, q) =
      remap_operands_at defs j.operands k (some v)
        (sym (ap (λ (t : Instruction). get_elem? t.operands k) same) ∙ at) in
    let table : define_blocks copy.blocks [] ≡ map_values (remapped defs) defs =
      define_blocks-define_all copy.blocks []
      ∙ ap (λ t. define_all t []) flat
      ∙ unfold map_values in
        define_all-remap_instructions defs l []
        ∙ ap (map_values (remapped defs)) (sym (define_blocks-define_all bare.blocks [])) in
    remap_operand_current defs o v d
      (λ name x f.
        elim (own_name l name [] x
          (ap (lookup name) (sym (define_blocks-define_all bare.blocks [])) ∙ f)) [
            | inl own ↦ own
            | inr old ↦ absurd (unfold lookup in cc)
          ])
      q named
      (sym (lookup-map_values (remapped defs) v.name defs)
        ∙ sym (ap (lookup v.name) table)
        ∙ unfold remap_operands_by_name in e)
