-- ===== src/Prune/Sweep.antt =====
-- The loop that removes the dead instructions from the last to the first, against a filter.
use clunk.Base.{
  ℕ, zero, suc, ◌+◌, ◌≡◌, ◌≤◌, refl, sym, ap, ◌∙◌, true, if◌then◌else◌, Option, some, none, List,
  [], ◌∷◌, ◌++◌, length, length-append, get_elem?, remove_at, nat_key, Bool-cases, inl, inr, arith,
}
use clunk.Base.Sets.{contains}
use clunk.Ir.Function.{Instruction, BasicBlock}
use clunk.Ir.Addresses.{instructions_of, Among, first, later}
use clunk.Prune.Dead.{Swept, drop_dead, sweep, sweep_blocks}

-- The instructions whose address is live.
unfoldable pub kept : List ℕ → List Instruction → List Instruction
kept live [] = []
kept live (i ∷ rest) = if contains i.address live then i ∷ kept live rest else kept live rest

abbrev front : List ℕ → Instruction → Swept → Swept
front live x s =
    if contains x.address live
    then record { instrs = x ∷ s.instrs; removed = s.removed }
    else record { instrs = s.instrs; removed = s.removed + 1 }

abbrev swept : List Instruction → ℕ → Swept
swept l r = record { instrs = l; removed = r }

abbrev onto : Instruction → Swept → Swept
onto x s = record { instrs = x ∷ s.instrs; removed = s.removed }

drop_dead-onto :
    (live : List ℕ) (n : ℕ) (x : Instruction) (o : Option Instruction) (s : Swept)
    → drop_dead live (suc n) o (onto x s) ≡ onto x (drop_dead live n o s)
unfolding drop_dead remove_at
drop_dead-onto live n x none s = refl
drop_dead-onto live n x (some y) s = ground arith

-- The first of the list is looked at last.
sweep-onto :
    (live : List ℕ) (n : ℕ) (x : Instruction) (s : Swept)
    → sweep live (suc n) (onto x s) ≡ front live x (sweep live n s)
unfolding sweep
sweep-onto live zero x s = unfold drop_dead remove_at in refl
sweep-onto live (suc n) x s =
    ap (sweep live (suc n)) (drop_dead-onto live n x (get_elem? s.instrs n) s)
    ∙ sweep-onto live n x (drop_dead live n (get_elem? s.instrs n) s)

sweep-kept :
    (live : List ℕ) (l : List Instruction) (r : ℕ)
    → ((sweep live (length l) (swept l r)).instrs ≡ kept live l)
      × ((sweep live (length l) (swept l r)).removed + length (kept live l) ≡ r + length l)
unfolding kept
sweep-kept live [] r = (unfold sweep in refl, unfold sweep in refl)
sweep-kept live (x ∷ l) r =
    let (same, count) = sweep-kept live l r in
    elim (Bool-cases (contains x.address live)) [
      | inl alive ↦
          rw (sweep-onto live (length l) x (swept l r), alive)
            (ap (λ t. x ∷ t) same, omega (arith, count))
      | inr dead ↦ rw (sweep-onto live (length l) x (swept l r), dead) (same, omega (arith, count))
    ]

kept-append :
    (live : List ℕ) (xs ys : List Instruction) → kept live (xs ++ ys) ≡ kept live xs ++ kept live ys
unfolding kept
kept-append live [] ys = refl
kept-append live (x ∷ xs) ys = ground (arith, kept-append live xs ys)

-- All the blocks.
pub sweep_blocks-kept :
    (live : List ℕ) (bs : List BasicBlock) (r : ℕ)
    → (instructions_of (sweep_blocks live r bs).blocks ≡ kept live (instructions_of bs))
      × ((sweep_blocks live r bs).removed + length (kept live (instructions_of bs))
          ≡ r + length (instructions_of bs))
unfolding sweep_blocks instructions_of
sweep_blocks-kept live [] r = unfold kept in (refl, refl)
sweep_blocks-kept live (b ∷ rest) r =
    let s = sweep live (length b.instrs) (swept b.instrs r) in
    let (same, count) = sweep-kept live b.instrs r in
    let (same_rest, count_rest) = sweep_blocks-kept live rest s.removed in
    let split = kept-append live b.instrs (instructions_of rest) in
    (
      ap (λ t. t ++ instructions_of (sweep_blocks live s.removed rest).blocks) same
          ∙ ap (λ t. kept live b.instrs ++ t) same_rest
          ∙ sym split,
      omega (
        arith,
        count,
        count_rest,
        ap length split,
        length-append (kept live b.instrs) (kept live (instructions_of rest)),
        length-append b.instrs (instructions_of rest),
      ),
    )

kept_le : (live : List ℕ) (l : List Instruction) → length (kept live l) ≤ length l
unfolding kept
kept_le live [] = omega arith
kept_le live (x ∷ l) = ground (arith, kept_le live l)

-- A filter that removes nothing.
pub kept_all :
    (live : List ℕ) (l : List Instruction) → length (kept live l) ≡ length l → kept live l ≡ l
unfolding kept
kept_all live [] e = refl
kept_all live (x ∷ l) e = ground (arith, kept_le live l, kept_all live l)

Among-head :
    (live : List ℕ) (x : Instruction) (l : List Instruction) (i : Instruction)
    → contains x.address live ≡ true
    → (Among i (kept live l) → Among i l × (contains i.address live ≡ true))
    → Among i (x ∷ kept live l)
    → Among i (x ∷ l) × (contains i.address live ≡ true)
Among-head live x l i alive h first = (first, alive)
Among-head live x l i alive h (later m) = let (there, live_i) = h m in (later there, live_i)

-- What a filter keeps was in the list and is live.
pub kept-Among :
    (live : List ℕ) (l : List Instruction) (i : Instruction)
    → Among i (kept live l)
    → Among i l × (contains i.address live ≡ true)
unfolding kept
kept-Among live [] i m = elim m [ ]
kept-Among live (x ∷ l) i m = elim (Bool-cases (contains x.address live)) [
  | inr dead ↦ let (there, alive) = kept-Among live l i (simp dead at m) in (later there, alive)
  | inl alive ↦ Among-head live x l i alive (kept-Among live l i) (simp alive at m)
]

pub Among-kept :
    (live : List ℕ) (l : List Instruction) (i : Instruction)
    → Among i l
    → contains i.address live ≡ true
    → Among i (kept live l)
unfolding kept
Among-kept live [] i m e = elim m [ ]
Among-kept live (x ∷ l) i first e = rw e first
Among-kept live (x ∷ l) i (later m) e = elim (Bool-cases (contains x.address live)) [
  | inl alive ↦ rw alive (later (Among-kept live l i m e))
  | inr dead ↦ rw dead (Among-kept live l i m e)
]
