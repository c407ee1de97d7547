-- ===== src/Prune/Names.antt =====
-- The names of the blocks that the steps of the removal of unreachable blocks leave.
use Prim.Native.String.{String}
use mathlib.Core.Path.{subst}
use mathlib.Core.Option
use clunk.Base.{
  ℕ, zero, suc, ◌<◌, ◌≡◌, ◌≢◌, ◌↔◌, refl, sym, ap, true, false, some, List, [], ◌∷◌, get_elem?,
  length, lookup, string_key, Option-cases, inl, inr, arith,
}
use clunk.Base.Sets.{contains}
use clunk.Ir.Function.{BasicBlock, Function}
use clunk.Ir.Blocks.{block, remove_block}
use clunk.Ir.Index.{IsIndexed, remove_block-IsIndexed}
use clunk.Ir.Named.{block_names, Stands-iff}
use clunk.Ir.Removed.{without, block_names-remove_block}
use clunk.Prune.Unreachable.{fix_block, fix_blocks, remove_blocks, unreachable, if_there, existing}

pub contains-unreachable :
    (r l : List String) (n : String)
    → (contains n (unreachable r l) ≡ true) ↔ ((contains n l ≡ true) × (contains n r ≡ false))
unfolding unreachable contains
contains-unreachable r [] n = ground arith
contains-unreachable r (x ∷ rest) n =
    ground (arith, contains-unreachable r rest n, string_key.same_iff x n)

contains-without :
    (m : String) (l : List String) (n : String)
    → (contains n (without m l) ≡ true) ↔ ((contains n l ≡ true) × (n ≢ m))
unfolding without contains
contains-without m [] n = ground arith
contains-without m (x ∷ rest) n =
    ground (arith, contains-without m rest n, string_key.same_iff x n, string_key.same_iff x m)

-- Removing several blocks takes their names off.
pub contains-remove_blocks :
    (dead : List String) (fn : Function) (n : String)
    → IsIndexed fn
    → (contains n (block_names (remove_blocks dead fn).blocks) ≡ true)
      ↔ ((contains n (block_names fn.blocks) ≡ true) × (contains n dead ≡ false))
unfolding remove_blocks contains
contains-remove_blocks [] fn n h = ground arith
contains-remove_blocks (m ∷ rest) fn n h =
    let later = contains-remove_blocks rest (remove_block m fn) n (remove_block-IsIndexed m fn h) in
    let taken : (contains n (block_names (remove_block m fn).blocks) ≡ true)
        ↔ ((contains n (block_names fn.blocks) ≡ true) × (n ≢ m)) =
      subst (λ l. (contains n l ≡ true) ↔ ((contains n (block_names fn.blocks) ≡ true) × (n ≢ m)))
        (sym (block_names-remove_block m fn h)) (contains-without m (block_names fn.blocks) n) in
    ground (arith, later, taken, string_key.same_iff m n)

pub block_names-fix_blocks :
    (dead : List String) (fresh : ℕ) (bs : List BasicBlock)
    → block_names (fix_blocks dead fresh bs) ≡ block_names bs
unfolding block_names fix_blocks
block_names-fix_blocks dead fresh [] = refl
block_names-fix_blocks dead fresh (b ∷ rest) =
    ap (λ l. b.name ∷ l) (block_names-fix_blocks dead (fix_block dead fresh b).fresh rest)

pub position_contains :
    (l : List String) (i : ℕ) (n : String) → get_elem? l i ≡ some n → contains n l ≡ true
unfolding contains
position_contains [] i n e = absurd (cc)
position_contains (x ∷ rest) zero n e = ground (arith, string_key.same_iff x n)
position_contains (x ∷ rest) (suc i) n e = ground (arith, position_contains rest i n e)

pub only_one :
    (l : List String) (entry n : String)
    → length l < 2
    → get_elem? l 0 ≡ some entry
    → contains n l ≡ true
    → contains n (entry ∷ []) ≡ true
unfolding contains
only_one [] entry n h e m = absurd (cc)
only_one (x ∷ []) entry n h e m = ground (arith, Option.some_inj.0 e)
only_one (x ∷ y ∷ rest) entry n h e m = absurd (omega arith)

-- A block that is found by name has a name of the list.
block-contains :
    (fn : Function) (n : String) (b : BasicBlock)
    → IsIndexed fn
    → block fn n ≡ some b
    → contains n (block_names fn.blocks) ≡ true
unfolding block
block-contains fn n b h e = elim (Option-cases (lookup n fn.block_index)) [
  | inl missing ↦ absurd (unfold block in ground (arith, e))
  | inr (i, found) ↦
      position_contains (block_names fn.blocks) i n ((Stands-iff fn.blocks n i).0 ((h n i).0 found))
]

pub contains-existing :
    (fn : Function) (l : List String) (n : String)
    → IsIndexed fn
    → contains n (existing fn l) ≡ true
    → contains n (block_names fn.blocks) ≡ true
unfolding existing if_there contains
contains-existing fn [] n h m = absurd (cc)
contains-existing fn (x ∷ rest) n h m = elim (Option-cases (block fn x)) [
  | inl missing ↦ contains-existing fn rest n h (simp missing at m)
  | inr (b, found) ↦
      ground (
        arith,
        block-contains fn x b h found,
        contains-existing fn rest n h,
        string_key.same_iff x n,
      )
]
