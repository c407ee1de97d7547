-- ===== src/Prune/Liveness.antt =====
-- The set that dead code elimination computes is what the roots reach along the uses.
use Prim.Native.String.{String}
use clunk.Base.{
  ℕ, zero, suc, ◌≡◌, ◌↔◌, refl, true, Option, some, none, List, [], ◌∷◌, length, get_elem?, Dict,
  string_key, nat_key, Bool-cases, Option-cases, inl, inr, arith,
}
use clunk.Base.Sets.{contains}
use clunk.Base.Worklist.{stack}
use clunk.Base.Worklist.Reached.{Reach, seed, step, closure_iff, closure_ends}
use clunk.Ir.Function.{Value, has_name, Instruction, BasicBlock}
use clunk.Ir.Addresses.{
  instructions_of, at_address, Numbered, Among, first, later, at_address-Among, named_instruction,
}
use clunk.Ir.Clone.{define_blocks}
use clunk.Prune.Dead.{
  has_side_effect_or_is_root, roots, named_by, used_by, use_of, used_by_instruction, uses,
  live_addresses,
}

unfoldable pub addresses : List Instruction → List ℕ
addresses [] = []
addresses (i ∷ rest) = i.address ∷ addresses rest

pub contains-addresses :
    (l : List Instruction) (i : Instruction) → Among i l → contains i.address (addresses l) ≡ true
unfolding addresses contains
contains-addresses [] i m = elim m [ ]
contains-addresses (x ∷ l) i first = ground (arith, nat_key.same_iff i.address i.address)
contains-addresses (x ∷ l) i (later m) = ground (arith, contains-addresses l i m)

length-addresses : (l : List Instruction) → length (addresses l) ≡ length l
unfolding addresses
length-addresses [] = refl
length-addresses (x ∷ l) = omega (arith, length-addresses l)

roots_within :
    (l : List Instruction) (a : ℕ) → contains a (roots l) ≡ true → contains a (addresses l) ≡ true
unfolding roots addresses contains
roots_within [] a h = h
roots_within (x ∷ l) a h = ground (arith, roots_within l a)

pub named_within :
    (bs : List BasicBlock) (o : Option Value) (d : Instruction)
    → named_by (define_blocks bs []) o ≡ some d
    → Among d (instructions_of bs)
unfolding named_by
named_within bs none d h = absurd (cc)
named_within bs (some v) d h = elim (Bool-cases (has_name v.name)) [
  | inl named ↦ named_instruction bs v.name d (simp named at h)
  | inr unnamed ↦ absurd (ground arith)
]

-- The definitions found by name are instructions of the blocks.
used_within :
    (bs : List BasicBlock) (operands : List (Option Value)) (a : ℕ)
    → contains a (used_by (define_blocks bs []) operands) ≡ true
    → contains a (addresses (instructions_of bs)) ≡ true
unfolding used_by use_of contains
used_within bs [] a h = absurd (cc)
used_within bs (o ∷ rest) a h = elim (Option-cases (named_by (define_blocks bs []) o)) [
  | inl unnamed ↦ used_within bs rest a (simp unnamed at h)
  | inr (d, found) ↦
      let there = contains-addresses (instructions_of bs) d (named_within bs o d found) in
      ground (arith, nat_key.same_iff d.address a, used_within bs rest a)
]

uses_within :
    (bs : List BasicBlock) (u a : ℕ)
    → contains a (uses (instructions_of bs) (define_blocks bs []) u) ≡ true
    → contains a (addresses (instructions_of bs)) ≡ true
unfolding uses used_by_instruction contains
uses_within bs u a h = elim (Option-cases (at_address u (instructions_of bs))) [
  | inl missing ↦ absurd (ground arith)
  | inr (i, found) ↦ used_within bs i.operands a (simp found at h)
]

-- The instructions that the blocks' roots reach along the uses.
abbrev pub Live : List BasicBlock → ℕ → Type 0
Live bs a = Reach (uses (instructions_of bs) (define_blocks bs [])) (roots (instructions_of bs)) a

-- The worklist is empty before the rounds are used up, and the set is then the live instructions.
pub live_addresses_found :
    (bs : List BasicBlock)
    → (live : List ℕ) × (live_addresses (instructions_of bs) (define_blocks bs []) ≡ some live)
      × ((a : ℕ) → (contains a live ≡ true) ↔ Live bs a)
unfolding live_addresses
live_addresses_found bs =
    let l = instructions_of bs in
    let next = uses l (define_blocks bs []) in
    let (live, found) =
      closure_ends stack next (roots l) (addresses l) (length l) (roots_within l) (uses_within bs)
        (omega (arith, length-addresses l)) in
    (live, found, λ a. closure_iff stack next (roots l) (length l) live a found)

used_operand :
    (by_name : Dict String Instruction) (operands : List (Option Value)) (k : ℕ) (o : Option Value)
    (d : Instruction)
    → get_elem? operands k ≡ some o
    → named_by by_name o ≡ some d
    → contains d.address (used_by by_name operands) ≡ true
unfolding used_by use_of contains
used_operand by_name [] k o d at h = absurd (cc)
used_operand by_name (x ∷ rest) zero o d at h = ground (arith, nat_key.same_iff d.address d.address)
used_operand by_name (x ∷ rest) (suc k) o d at h =
    ground (arith, used_operand by_name rest k o d at h, Option-cases (named_by by_name x))

-- What a live instruction uses is live.
pub Live-use :
    (fresh : ℕ) (bs : List BasicBlock) (i d : Instruction) (k : ℕ) (o : Option Value)
    → Numbered fresh (instructions_of bs)
    → Among i (instructions_of bs)
    → Live bs i.address
    → get_elem? i.operands k ≡ some o
    → named_by (define_blocks bs []) o ≡ some d
    → Live bs d.address
Live-use fresh bs i d k o n m h at e = step {v = d.address} h (
    unfold uses used_by_instruction in
    rw (at_address-Among fresh (instructions_of bs) i n m)
      (used_operand (define_blocks bs []) i.operands k o d at e))

contains-roots :
    (l : List Instruction) (i : Instruction)
    → Among i l
    → has_side_effect_or_is_root i ≡ true
    → contains i.address (roots l) ≡ true
unfolding roots contains
contains-roots [] i m h = elim m [ ]
contains-roots (x ∷ l) i first h = ground (arith, nat_key.same_iff i.address i.address)
contains-roots (x ∷ l) i (later m) h = ground (arith, contains-roots l i m h)

pub root-Live :
    (bs : List BasicBlock) (i : Instruction)
    → Among i (instructions_of bs)
    → has_side_effect_or_is_root i ≡ true
    → Live bs i.address
root-Live bs i m h = seed (contains-roots (instructions_of bs) i m h)
