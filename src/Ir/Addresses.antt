-- ===== src/Ir/Addresses.antt =====
-- The instructions of a copied function stand at consecutive addresses, so that an address names one.
use Prim.Native.String.{String}
use mathlib.Core.Path.{subst}
use mathlib.Core.List.{append_assoc, append-nil}
use clunk.Base.{
  ℕ, suc, ◌+◌, ◌≤◌, ◌≡◌, refl, sym, ap, ◌∙◌, if◌then◌else◌, ◌==◌, Dict, Option, some, none, List,
  [], ◌∷◌, ◌++◌, length, length-append, lookup, lookup-insert_cases, string_key, Bool-cases, ◌⊎◌,
  inl, inr, arith,
}
use clunk.Ir.Function.{Instruction, BasicBlock, Function, has_name}
use clunk.Ir.Blocks.{push_block}
use clunk.Ir.Clone.{
  copy_instructions, copy_block, copy_blocks, without_blocks, remap_instructions, remapped,
  remap_blocks, remap_operands_by_name, define, define_all, define_blocks, deep_copy_function,
}

-- The instructions of a function in the order of its blocks.
unfoldable pub instructions_of : List BasicBlock → List Instruction
instructions_of [] = []
instructions_of (b ∷ rest) = b.instrs ++ instructions_of rest

-- The object at an address.
unfoldable pub at_address : ℕ → List Instruction → Option Instruction
at_address a [] = none
at_address a (i ∷ rest) = if i.address == a then some i else at_address a rest

pub data Numbered : ℕ → List Instruction → Type 0 where
  nil : {a : ℕ} → Numbered a []
  next :
      {a : ℕ} {i : Instruction} {rest : List Instruction}
      → i.address ≡ a
      → Numbered (suc a) rest
      → Numbered a (i ∷ rest)

-- The instruction is one of the list.
pub data Among (i : Instruction) : List Instruction → Type 0 where
  first : {rest : List Instruction} → Among i (i ∷ rest)
  later : {x : Instruction} {rest : List Instruction} → Among i rest → Among i (x ∷ rest)

pub Among-cons : (i x : Instruction) (l : List Instruction) → Among i (x ∷ l) → (i ≡ x) ⊎ Among i l
Among-cons i x l first = inl refl
Among-cons i x l (later m) = inr m

instructions_of-append :
    (bs cs : List BasicBlock)
    → instructions_of (bs ++ cs) ≡ instructions_of bs ++ instructions_of cs
unfolding instructions_of
instructions_of-append [] cs = refl
instructions_of-append (b ∷ bs) cs =
    ap (λ l. b.instrs ++ l) (instructions_of-append bs cs)
    ∙ sym (append_assoc b.instrs (instructions_of bs) (instructions_of cs))

instructions_of_one : (b : BasicBlock) → instructions_of (b ∷ []) ≡ b.instrs
unfolding instructions_of
instructions_of_one b = append-nil b.instrs

append-Numbered :
    (a : ℕ) (xs ys : List Instruction)
    → Numbered a xs
    → Numbered (a + length xs) ys
    → Numbered a (xs ++ ys)
append-Numbered a [] ys n m = subst (λ k. Numbered k ys) (omega arith) m
append-Numbered a (x ∷ xs) ys (next e n) m =
    next e (append-Numbered (suc a) xs ys n (subst (λ k. Numbered k ys) (omega arith) m))

copy_instructions-Numbered : (a : ℕ) (l : List Instruction) → Numbered a (copy_instructions a l)
unfolding copy_instructions
copy_instructions-Numbered a [] = nil
copy_instructions-Numbered a (i ∷ rest) = next refl (copy_instructions-Numbered (suc a) rest)

length-copy_instructions :
    (a : ℕ) (l : List Instruction) → length (copy_instructions a l) ≡ length l
unfolding copy_instructions
length-copy_instructions a [] = refl
length-copy_instructions a (i ∷ rest) = omega (arith, length-copy_instructions (suc a) rest)

copy_blocks-Numbered :
    (base fresh : ℕ) (bs : List BasicBlock) (copy : Function)
    → Numbered base (instructions_of copy.blocks)
    → base + length (instructions_of copy.blocks) ≡ fresh
    → Numbered base (instructions_of (copy_blocks fresh bs copy).blocks)
unfolding copy_blocks push_block
copy_blocks-Numbered base fresh [] copy n e = n
copy_blocks-Numbered base fresh (b ∷ rest) copy n e =
    let c = copy_block fresh b in
    let split : instructions_of (copy.blocks ++ c ∷ []) ≡ instructions_of copy.blocks ++ c.instrs =
      instructions_of-append copy.blocks (c ∷ [])
      ∙ ap (λ l. instructions_of copy.blocks ++ l) (instructions_of_one c) in
    copy_blocks-Numbered base (fresh + length b.instrs) rest (push_block c copy)
      (subst (Numbered base) (sym split) (
        append-Numbered base (instructions_of copy.blocks) c.instrs n
          (subst (λ k. Numbered k c.instrs) (sym e) (copy_instructions-Numbered fresh b.instrs))))
      (ap (λ l. base + length l) split
        ∙ omega (
          arith,
          e,
          length-append (instructions_of copy.blocks) c.instrs,
          length-copy_instructions fresh b.instrs,
        ))

remap_instructions-append :
    (defs : Dict String Instruction) (xs ys : List Instruction)
    → remap_instructions defs (xs ++ ys) ≡ remap_instructions defs xs ++ remap_instructions defs ys
unfolding remap_instructions
remap_instructions-append defs [] ys = refl
remap_instructions-append defs (x ∷ xs) ys =
    ap (λ l. remapped defs x ∷ l) (remap_instructions-append defs xs ys)

pub instructions_of-remap_blocks :
    (defs : Dict String Instruction) (bs : List BasicBlock)
    → instructions_of (remap_blocks defs bs) ≡ remap_instructions defs (instructions_of bs)
unfolding instructions_of remap_blocks remap_instructions
instructions_of-remap_blocks defs [] = refl
instructions_of-remap_blocks defs (b ∷ rest) =
    ap (λ l. remap_instructions defs b.instrs ++ l) (instructions_of-remap_blocks defs rest)
    ∙ sym (remap_instructions-append defs b.instrs (instructions_of rest))

remap_instructions-Numbered :
    (defs : Dict String Instruction) (a : ℕ) (l : List Instruction)
    → Numbered a l
    → Numbered a (remap_instructions defs l)
unfolding remap_instructions
remap_instructions-Numbered defs a [] n = nil
remap_instructions-Numbered defs a (i ∷ rest) (next e n) =
    next e (remap_instructions-Numbered defs (suc a) rest n)

-- The addresses of a copy are those from `fresh` on, in the order of the instructions.
pub deep_copy_function-Numbered :
    (fresh : ℕ) (src : Function)
    → Numbered fresh (instructions_of (deep_copy_function fresh src).blocks)
unfolding deep_copy_function remap_operands_by_name instructions_of
deep_copy_function-Numbered fresh src =
    let bare = copy_blocks fresh src.blocks (without_blocks src) in
    subst (Numbered fresh)
      (sym (instructions_of-remap_blocks (define_blocks bare.blocks []) bare.blocks))
      (remap_instructions-Numbered (define_blocks bare.blocks []) fresh
        (instructions_of bare.blocks)
        (copy_blocks-Numbered fresh fresh src.blocks (without_blocks src) nil (omega arith)))

Numbered-least :
    (a : ℕ) (l : List Instruction) (i : Instruction) → Numbered a l → Among i l → a ≤ i.address
Numbered-least a [] i n m = elim m [ ]
Numbered-least a (x ∷ rest) i (next e n) first = omega (arith, e)
Numbered-least a (x ∷ rest) i (next e n) (later m) =
    omega (arith, Numbered-least (suc a) rest i n m)

-- An address finds its instruction.
pub at_address-Among :
    (a : ℕ) (l : List Instruction) (i : Instruction)
    → Numbered a l
    → Among i l
    → at_address i.address l ≡ some i
unfolding at_address
at_address-Among a [] i n m = elim m [ ]
at_address-Among a (x ∷ rest) i (next e n) first = ground arith
at_address-Among a (x ∷ rest) i (next e n) (later m) =
    ground (arith, Numbered-least (suc a) rest i n m, at_address-Among (suc a) rest i n m, e)

define_all-append :
    (xs ys : List Instruction) (defs : Dict String Instruction)
    → define_all (xs ++ ys) defs ≡ define_all ys (define_all xs defs)
unfolding define_all
define_all-append [] ys defs = refl
define_all-append (x ∷ xs) ys defs = define_all-append xs ys (define x defs)

pub define_blocks-define_all :
    (bs : List BasicBlock) (defs : Dict String Instruction)
    → define_blocks bs defs ≡ define_all (instructions_of bs) defs
unfolding define_blocks instructions_of
define_blocks-define_all [] defs = unfold define_all in refl
define_blocks-define_all (b ∷ rest) defs =
    define_blocks-define_all rest (define_all b.instrs defs)
    ∙ sym (define_all-append b.instrs (instructions_of rest) defs)

-- A definition that is found is one of the instructions, or was there before.
pub lookup-define_all :
    (l : List Instruction) (name : String) (defs : Dict String Instruction) (d : Instruction)
    → lookup name (define_all l defs) ≡ some d
    → Among d l ⊎ (lookup name defs ≡ some d)
unfolding define_all define
lookup-define_all [] name defs d e = inr e
lookup-define_all (i ∷ rest) name defs d e =
    elim (lookup-define_all rest name (define i defs) d e) [
      | inl m ↦ inl (later m)
      | inr f ↦ elim (Bool-cases (has_name i.name)) [
        | inr unnamed ↦ inr (ground (arith, f))
        | inl named ↦ elim (lookup-insert_cases i.name name i d defs (ground (arith, f))) [
          | inl (_, same) ↦ inl (subst (λ x. Among x (i ∷ rest)) same first)
          | inr old ↦ inr old
        ]
      ]
    ]

pub named_instruction :
    (bs : List BasicBlock) (name : String) (d : Instruction)
    → lookup name (define_blocks bs []) ≡ some d
    → Among d (instructions_of bs)
named_instruction bs name d e =
    elim (lookup-define_all (instructions_of bs) name [] d
      (ap (lookup name) (sym (define_blocks-define_all bs [])) ∙ e)) [
        | inl m ↦ m
        | inr f ↦ absurd (unfold lookup in cc)
      ]
