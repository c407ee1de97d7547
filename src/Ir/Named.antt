-- ===== src/Ir/Named.antt =====
-- The names of a function's blocks: which passes keep them, and that a copy is indexed.
use Prim.Native.String.{String}
use mathlib.Core.Option
use clunk.Base.{
  ℕ, zero, suc, ◌≡◌, ◌↔◌, refl, sym, ap, ◌∙◌, Option, some, List, [], ◌∷◌, get_elem?, Dict, lookup,
  string_key, Option-cases, inl, inr,
}
use clunk.Ir.Function.{Instruction, BasicBlock, Function}
use clunk.Ir.Blocks.{successors}
use clunk.Ir.Index.{Stands, IsIndexed}
use clunk.Ir.Clone.{
  remap_blocks, add_predecessor, add_edge, add_edges, add_all_edges, clear_predecessors,
  compute_predecessors,
}

unfoldable pub block_names : List BasicBlock → List String
block_names [] = []
block_names (b ∷ rest) = b.name ∷ block_names rest

pub block_names-remap_blocks :
    (defs : Dict String Instruction) (bs : List BasicBlock)
    → block_names (remap_blocks defs bs) ≡ block_names bs
unfolding block_names remap_blocks
block_names-remap_blocks defs [] = refl
block_names-remap_blocks defs (b ∷ rest) = ap (λ l. b.name ∷ l) (block_names-remap_blocks defs rest)

block_names-add_predecessor :
    (p : String) (i : ℕ) (bs : List BasicBlock)
    → block_names (add_predecessor p i bs) ≡ block_names bs
unfolding block_names add_predecessor
block_names-add_predecessor p i [] = refl
block_names-add_predecessor p zero (b ∷ rest) = refl
block_names-add_predecessor p (suc i) (b ∷ rest) =
    ap (λ l. b.name ∷ l) (block_names-add_predecessor p i rest)

block_names-add_edges :
    (index : Dict String ℕ) (p : String) (names : List String) (bs : List BasicBlock)
    → block_names (add_edges index p names bs) ≡ block_names bs
unfolding add_edges add_edge
block_names-add_edges index p [] bs = refl
block_names-add_edges index p (name ∷ rest) bs = elim (Option-cases (lookup name index)) [
  | inl missing ↦ rw missing (block_names-add_edges index p rest bs)
  | inr (i, found) ↦ rw found (
      block_names-add_edges index p rest (add_predecessor p i bs)
      ∙ block_names-add_predecessor p i bs)
]

block_names-clear_predecessors :
    (bs : List BasicBlock) → block_names (clear_predecessors bs) ≡ block_names bs
unfolding block_names clear_predecessors
block_names-clear_predecessors [] = refl
block_names-clear_predecessors (b ∷ rest) =
    ap (λ l. b.name ∷ l) (block_names-clear_predecessors rest)

module _ (to_string : ℕ → String) where
  block_names-add_all_edges :
      (index : Dict String ℕ) (from bs : List BasicBlock)
      → block_names (add_all_edges to_string index from bs) ≡ block_names bs
  unfolding add_all_edges
  block_names-add_all_edges index [] bs = refl
  block_names-add_all_edges index (b ∷ rest) bs =
      block_names-add_all_edges index rest (add_edges index b.name (successors to_string b) bs)
      ∙ block_names-add_edges index b.name (successors to_string b) bs

  pub block_names-compute_predecessors :
      (fn : Function)
      → block_names (compute_predecessors to_string fn).blocks ≡ block_names fn.blocks
  unfolding compute_predecessors
  block_names-compute_predecessors fn =
      block_names-add_all_edges fn.block_index fn.blocks (clear_predecessors fn.blocks)
      ∙ block_names-clear_predecessors fn.blocks

-- A position has a block of the name.
pub Stands-iff :
    (bs : List BasicBlock) (name : String) (i : ℕ)
    → Stands bs name i ↔ (get_elem? (block_names bs) i ≡ some name)
unfolding block_names
Stands-iff [] name i = (λ s. absurd (cc), λ e. absurd (cc))
Stands-iff (b ∷ rest) name zero = (
  λ s. ap (λ (o : Option BasicBlock). Option.map (λ (x : BasicBlock). x.name) o) s.1 ∙ ap some s.2,
  λ e. (b, refl, Option.some_inj.0 e),
)
Stands-iff (b ∷ rest) name (suc i) = Stands-iff rest name i

-- The index depends on the names only.
pub names-IsIndexed :
    (f g : Function)
    → block_names f.blocks ≡ block_names g.blocks
    → f.block_index ≡ g.block_index
    → IsIndexed f
    → IsIndexed g
names-IsIndexed f g names index h name i =
    let moved = ap (λ (l : List String). get_elem? l i) names in
    let at = ap (λ (d : Dict String ℕ). lookup name d) index in
    (
      λ e.
          (Stands-iff g.blocks name i).1
            (sym moved ∙ (Stands-iff f.blocks name i).0 ((h name i).0 (at ∙ e))),
      λ s.
          sym at
          ∙ (h name i).1
              ((Stands-iff f.blocks name i).1 (moved ∙ (Stands-iff g.blocks name i).0 s)),
    )
