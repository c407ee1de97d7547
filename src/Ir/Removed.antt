-- ===== src/Ir/Removed.antt =====
-- The index of a copied function is right, and what removing blocks by name leaves.
use Prim.Native.String.{String}
use mathlib.Core.Option
use mathlib.Core.List.{append_assoc, append-nil}
use clunk.Base.{
  ℕ, zero, suc, ◌+◌, ◌≡◌, ◌≢◌, refl, sym, ap, ◌∙◌, true, if◌then◌else◌, some, none, List, [], ◌∷◌,
  ◌++◌, get_elem?, length, lookup, string_key, remove_at, Option-cases, inl, inr, arith,
  lookup-insert,
}
use clunk.Base.Sets.{contains, Unrepeated, one_more}
use clunk.Ir.Function.{BasicBlock, Function}
use clunk.Ir.Blocks.{push_block, remove_block, remove_block_at}
use clunk.Ir.Index.{IsIndexed, push_block-IsIndexed}
use clunk.Ir.Clone.{
  copy_block, copy_blocks, without_blocks, remap_operands_by_name, define_blocks,
  deep_copy_function,
}
use clunk.Ir.Named.{block_names, block_names-remap_blocks, names-IsIndexed, Stands-iff}

pub block_names-append :
    (bs : List BasicBlock) (b : BasicBlock)
    → block_names (bs ++ b ∷ []) ≡ block_names bs ++ b.name ∷ []
unfolding block_names
block_names-append [] b = refl
block_names-append (x ∷ bs) b = ap (λ l. x.name ∷ l) (block_names-append bs b)

block_names-copy_blocks :
    (fresh : ℕ) (bs : List BasicBlock) (copy : Function)
    → block_names (copy_blocks fresh bs copy).blocks ≡ block_names copy.blocks ++ block_names bs
unfolding copy_blocks push_block block_names
block_names-copy_blocks fresh [] copy = sym (append-nil (block_names copy.blocks))
block_names-copy_blocks fresh (b ∷ rest) copy =
    block_names-copy_blocks (fresh + length b.instrs) rest (push_block (copy_block fresh b) copy)
    ∙ ap (λ l. l ++ block_names rest) (block_names-append copy.blocks (copy_block fresh b))
    ∙ append_assoc (block_names copy.blocks) (b.name ∷ []) (block_names rest)

-- A copy has the blocks' names in their order.
pub block_names-deep_copy_function :
    (fresh : ℕ) (fn : Function)
    → block_names (deep_copy_function fresh fn).blocks ≡ block_names fn.blocks
unfolding deep_copy_function remap_operands_by_name
block_names-deep_copy_function fresh fn =
    let bare = copy_blocks fresh fn.blocks (without_blocks fn) in
    block_names-remap_blocks (define_blocks bare.blocks []) bare.blocks
    ∙ block_names-copy_blocks fresh fn.blocks (without_blocks fn)
    ∙ unfold block_names in refl

copy_blocks-IsIndexed :
    (fresh : ℕ) (bs : List BasicBlock) (copy : Function)
    → IsIndexed copy
    → Unrepeated (block_names bs)
    → ((n : String) → contains n (block_names bs) ≡ true → lookup n copy.block_index ≡ none)
    → IsIndexed (copy_blocks fresh bs copy)
unfolding copy_blocks block_names contains
copy_blocks-IsIndexed fresh [] copy h u new = h
copy_blocks-IsIndexed fresh (b ∷ rest) copy h (one_more apart u) new =
    copy_blocks-IsIndexed (fresh + length b.instrs) rest (push_block (copy_block fresh b) copy)
      (push_block-IsIndexed (copy_block fresh b) copy h
        (new b.name (ground (arith, string_key.same_iff b.name b.name))))
      u
      (λ n m.
        unfold push_block in
        ground (
          arith,
          lookup-insert b.name n (length copy.blocks) copy.block_index,
          new n,
          string_key.same_iff b.name n,
          apart,
          m,
        ))

-- The index of a copy is right, where no name is given to two blocks.
pub deep_copy_function-IsIndexed :
    (fresh : ℕ) (fn : Function)
    → Unrepeated (block_names fn.blocks)
    → IsIndexed (deep_copy_function fresh fn)
unfolding deep_copy_function remap_operands_by_name
deep_copy_function-IsIndexed fresh fn u =
    let bare = copy_blocks fresh fn.blocks (without_blocks fn) in
    names-IsIndexed bare (remap_operands_by_name bare)
      (unfold remap_operands_by_name in
        sym (block_names-remap_blocks (define_blocks bare.blocks []) bare.blocks))
      (unfold remap_operands_by_name in refl)
      (copy_blocks-IsIndexed fresh fn.blocks (without_blocks fn)
        (λ name i. (λ e. absurd (unfold lookup in cc), λ s. absurd (cc))) u
        (λ n m. unfold lookup in refl))

unfoldable pub without : String → List String → List String
without n [] = []
without n (x ∷ rest) = if string_key.same x n then without n rest else x ∷ without n rest

without_absent :
    (n : String) (l : List String) → ((i : ℕ) → get_elem? l i ≢ some n) → without n l ≡ l
unfolding without
without_absent n [] h = refl
without_absent n (x ∷ rest) h =
    ground (arith, string_key.same_iff x n, h 0, without_absent n rest (λ i. h (suc i)))

remove_at-without :
    (n : String) (k : ℕ) (l : List String)
    → get_elem? l k ≡ some n
    → ((i : ℕ) → get_elem? l i ≡ some n → i ≡ k)
    → remove_at k l ≡ without n l
unfolding without remove_at
remove_at-without n k [] e only = absurd (cc)
remove_at-without n zero (x ∷ rest) e only = ground (
  arith,
  string_key.same_iff x n,
  sym (without_absent n rest (λ i found. absurd (omega (arith, only (suc i) found)))),
)
remove_at-without n (suc k) (x ∷ rest) e only = ground (
  arith,
  string_key.same_iff x n,
  λ (p : x ≡ n). only 0 (ap some p),
  remove_at-without n k rest e (λ i found. omega (arith, only (suc i) found)),
)

block_names-remove_at :
    (k : ℕ) (bs : List BasicBlock) → block_names (remove_at k bs) ≡ remove_at k (block_names bs)
unfolding block_names remove_at
block_names-remove_at k [] = refl
block_names-remove_at zero (b ∷ rest) = refl
block_names-remove_at (suc k) (b ∷ rest) = ap (λ l. b.name ∷ l) (block_names-remove_at k rest)

-- Removing a block by name takes exactly that name off.
pub block_names-remove_block :
    (n : String) (fn : Function)
    → IsIndexed fn
    → block_names (remove_block n fn).blocks ≡ without n (block_names fn.blocks)
unfolding remove_block remove_block_at
block_names-remove_block n fn h = elim (Option-cases (lookup n fn.block_index)) [
  | inl missing ↦ rw missing (
      sym (
        without_absent n (block_names fn.blocks)
          (λ i e. absurd (ground (arith, missing, (h n i).1 ((Stands-iff fn.blocks n i).1 e))))))
  | inr (k, found) ↦ rw found (
      block_names-remove_at k fn.blocks
      ∙ remove_at-without n k (block_names fn.blocks)
          ((Stands-iff fn.blocks n k).0 ((h n k).0 found))
          (λ i e. Option.some_inj.0 (sym ((h n i).1 ((Stands-iff fn.blocks n i).1 e)) ∙ found)))
]
