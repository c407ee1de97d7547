-- ===== src/Prune/Rounds.antt =====
-- What the steps of the passes do to the names of the blocks.
use Prim.Native.String.{String}
use mathlib.Core.Path.{subst}
use mathlib.Core.List.{append_assoc, append-nil}
use clunk.Base.{
  ℕ, ◌≡◌, refl, sym, ap, ◌∙◌, true, List, [], ◌∷◌, ◌++◌, length, string_key, Bool-cases, inl, inr,
  arith,
}
use clunk.Base.Sets.{contains, Unrepeated, empty, one_more}
use clunk.Ir.Function.{BasicBlock, Function}
use clunk.Ir.Blocks.{push_block, remove_block}
use clunk.Ir.Index.{IsIndexed, remove_block-IsIndexed}
use clunk.Ir.Clone.{remap_operands_by_name, define_blocks}
use clunk.Ir.Named.{block_names, block_names-remap_blocks}
use clunk.Ir.Removed.{without, block_names-remove_block, block_names-append}
use clunk.KnownBits.Analysis.{Env}
use clunk.Prune.Dead.{sweep, sweep_blocks}
use clunk.Prune.Unreachable.{remove_blocks}
use clunk.Prune.Folds.{fold_blocks, fold_instructions, Folding}

-- The blocks of the second are among those of the first, and none of their names is repeated.
pub record Narrowed (before after : Function) : Type 0 where
  pub unrepeated : Unrepeated (block_names after.blocks)
  pub within :
      (n : String)
      → contains n (block_names after.blocks) ≡ true
      → contains n (block_names before.blocks) ≡ true

pub same_names-Narrowed :
    (f g : Function)
    → Unrepeated (block_names f.blocks)
    → block_names g.blocks ≡ block_names f.blocks
    → Narrowed f g
same_names-Narrowed f g u e = record {
  unrepeated = subst Unrepeated (sym e) u;
  within = λ n m. subst (λ l. contains n l ≡ true) e m;
}

pub Narrowed-trans : (f g h : Function) → Narrowed f g → Narrowed g h → Narrowed f h
Narrowed-trans f g h a b = record {
  unrepeated = b.unrepeated;
  within = λ n m. a.within n (b.within n m);
}

pub block_names-push_block :
    (b : BasicBlock) (fn : Function)
    → block_names (push_block b fn).blocks ≡ block_names fn.blocks ++ b.name ∷ []
unfolding push_block
block_names-push_block b fn = block_names-append fn.blocks b

pub block_names-remap_operands_by_name :
    (fn : Function) → block_names (remap_operands_by_name fn).blocks ≡ block_names fn.blocks
unfolding remap_operands_by_name
block_names-remap_operands_by_name fn =
    block_names-remap_blocks (define_blocks fn.blocks []) fn.blocks

-- The folds keep the blocks.
pub block_names-fold_blocks :
    (env : Env) (bs : List BasicBlock) (work : Function) (s : Folding)
    → block_names (fold_blocks env bs work s).function.blocks
      ≡ block_names work.blocks ++ block_names bs
unfolding fold_blocks block_names
block_names-fold_blocks env [] work s = sym (append-nil (block_names work.blocks))
block_names-fold_blocks env (b ∷ rest) work s =
    let t = fold_instructions env b.instrs (record s { instrs = [] }) in
    let c : BasicBlock = record { name = b.name; instrs = t.instrs; preds = [] } in
    block_names-fold_blocks env rest (push_block c work) t
    ∙ ap (λ l. l ++ block_names rest) (block_names-push_block c work)
    ∙ append_assoc (block_names work.blocks) (b.name ∷ []) (block_names rest)

pub block_names-sweep_blocks :
    (live : List ℕ) (removed : ℕ) (bs : List BasicBlock)
    → block_names (sweep_blocks live removed bs).blocks ≡ block_names bs
unfolding sweep_blocks block_names
block_names-sweep_blocks live removed [] = refl
block_names-sweep_blocks live removed (b ∷ rest) =
    ap (λ l. b.name ∷ l)
      (block_names-sweep_blocks live
        (sweep live (length b.instrs) (record { instrs = b.instrs; removed = removed })).removed
        rest)

contains-without_le :
    (m : String) (l : List String) (n : String)
    → contains n (without m l) ≡ true
    → contains n l ≡ true
unfolding without contains
contains-without_le m [] n h = h
contains-without_le m (x ∷ rest) n h = ground (arith, contains-without_le m rest n)

without-Unrepeated : (m : String) (l : List String) → Unrepeated l → Unrepeated (without m l)
unfolding without
without-Unrepeated m [] u = empty
without-Unrepeated m (x ∷ rest) (one_more new u) = elim (Bool-cases (string_key.same x m)) [
  | inl hit ↦ rw hit (without-Unrepeated m rest u)
  | inr miss ↦
      rw miss
        (one_more (ground (arith, contains-without_le m rest x)) (without-Unrepeated m rest u))
]

pub remove_blocks-Narrowed :
    (dead : List String) (fn : Function)
    → IsIndexed fn
    → Unrepeated (block_names fn.blocks)
    → Narrowed fn (remove_blocks dead fn)
unfolding remove_blocks
remove_blocks-Narrowed [] fn h u = same_names-Narrowed fn fn u refl
remove_blocks-Narrowed (m ∷ rest) fn h u =
    let e = block_names-remove_block m fn h in
    let one : Narrowed fn (remove_block m fn) = record {
      unrepeated = subst Unrepeated (sym e) (without-Unrepeated m (block_names fn.blocks) u);
      within = λ n i.
          contains-without_le m (block_names fn.blocks) n (subst (λ l. contains n l ≡ true) e i);
    } in
    Narrowed-trans fn (remove_block m fn) (remove_blocks rest (remove_block m fn)) one (
      remove_blocks-Narrowed rest (remove_block m fn) (remove_block-IsIndexed m fn h)
        one.unrepeated)
