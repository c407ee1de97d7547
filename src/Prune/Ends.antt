-- ===== src/Prune/Ends.antt =====
-- Each pass of `prune_dataflow` ends, adds no block and gives no name to two of them.
use Prim.Native.String.{String}
use mathlib.Core.List.{append_assoc, append-nil}
use clunk.Base.{
  ℕ, ◌+◌, ◌≡◌, refl, sym, ap, ◌∙◌, ◌||◌, ◌==◌, ltb, Option, some, none, List, [], ◌∷◌, ◌++◌, length,
  get_elem?, string_key, Option-cases, Bool-cases, inl, inr,
}
use clunk.Base.Sets.{Unrepeated}
use clunk.Ir.Function.{BasicBlock, Function}
use clunk.Ir.Blocks.{push_block}
use clunk.Ir.Index.{IsIndexed}
use clunk.Ir.Clone.{
  deep_copy_function, remap_operands_by_name, without_blocks, compute_predecessors,
  instruction_count,
}
use clunk.Ir.Named.{block_names, block_names-compute_predecessors, names-IsIndexed}
use clunk.Ir.Removed.{block_names-deep_copy_function, deep_copy_function-IsIndexed}
use clunk.KnownBits.Analysis.{Env, analyse_known_bits}
use clunk.Prune.Dead.{
  Outcome, unchanged, changed, eliminate_dead_code, eliminate, finish, sweep_blocks,
}
use clunk.Prune.Liveness.{live_addresses_found}
use clunk.Prune.Unreachable.{
  remove_unreachable_blocks, prune_from, prune_to, reachable_from, drop_blocks, fix_blocks,
  remove_blocks, unreachable,
}
use clunk.Prune.Names.{block_names-fix_blocks}
use clunk.Prune.Folds.{
  simplify_known_bits, fold_with, fold_blocks, finish_folds, Folding, no_counts, any_fold_in,
  any_branch_fold, nothing_done,
}
use clunk.Prune.Cse.{
  simplify_cse, share_blocks, share_all, finish_sharing, Sharing, any_duplicate_in,
}
use clunk.Prune.Reachable.{prune_from_iff}
use clunk.Prune.Rounds.{
  Narrowed, same_names-Narrowed, Narrowed-trans, block_names-push_block,
  block_names-remap_operands_by_name, block_names-fold_blocks, block_names-sweep_blocks,
  remove_blocks-Narrowed,
}

-- The names of the blocks of what a pass gives, else of what it was given.
abbrev pub names_or : {A : Type 0} → List String → Option (Function × A) → List String
names_or names none = names
names_or names (some (fn, count)) = block_names fn.blocks

-- An outcome that narrows the function or leaves it.
pub data Keeps (fn : Function) : Outcome → Type 0 where
  keeps_all : Keeps fn unchanged
  keeps_some : {g : Function} {count : ℕ} → Narrowed fn g → Keeps fn (changed g count)

module _ (to_string to_string_signed : ℕ → String) where
  block_names-share_blocks :
      (bs : List BasicBlock) (work : Function) (s : Sharing)
      → block_names (share_blocks to_string to_string_signed bs work s).function.blocks
        ≡ block_names work.blocks ++ block_names bs
  unfolding share_blocks block_names
  block_names-share_blocks [] work s = sym (append-nil (block_names work.blocks))
  block_names-share_blocks (b ∷ rest) work s =
      let t =
        share_all to_string to_string_signed b.instrs (record s { table = []; instrs = [] }) in
      let c : BasicBlock = record { name = b.name; instrs = t.instrs; preds = [] } in
      block_names-share_blocks rest (push_block c work) t
      ∙ ap (λ l. l ++ block_names rest) (block_names-push_block c work)
      ∙ append_assoc (block_names work.blocks) (b.name ∷ []) (block_names rest)

  finished_names :
      (fn : Function)
      → block_names (compute_predecessors to_string (remap_operands_by_name fn)).blocks
        ≡ block_names fn.blocks
  finished_names fn =
      block_names-compute_predecessors to_string (remap_operands_by_name fn)
      ∙ block_names-remap_operands_by_name fn

  names_or-finish_folds :
      (env : Env) (fn : Function) (s : Folding)
      → names_or
          (block_names fn.blocks)
          (finish_folds to_string (fold_blocks env fn.blocks (without_blocks fn) s))
        ≡ block_names fn.blocks
  unfolding finish_folds
  names_or-finish_folds env fn s =
      let r = fold_blocks env fn.blocks (without_blocks fn) s in
      elim (Bool-cases (nothing_done r.counts)) [
        | inl nothing ↦ rw nothing
        | inr done ↦ rw done (
            finished_names r.function
            ∙ block_names-fold_blocks env fn.blocks (without_blocks fn) s
            ∙ unfold block_names in refl)
      ]

  pub names_or-simplify_known_bits :
      (stoul : String → Option ℕ) (fresh : ℕ) (fn : Function)
      → names_or (block_names fn.blocks) (simplify_known_bits to_string stoul fresh fn)
        ≡ block_names fn.blocks
  unfolding simplify_known_bits fold_with
  names_or-simplify_known_bits stoul fresh fn =
      let env = analyse_known_bits stoul fn in
      elim (Bool-cases (length env == 0)) [
        | inl no_facts ↦ rw no_facts
        | inr facts ↦
            elim (Bool-cases (any_fold_in env fn.blocks || any_branch_fold env fn.blocks)) [
              | inr none_found ↦ rw (facts, none_found)
              | inl found ↦
                  rw (facts, found)
                    (names_or-finish_folds env fn
                      (record { binding = []; counts = no_counts; fresh = fresh; instrs = [] }))
            ]
      ]

  names_or-finish_sharing :
      (fn : Function) (s : Sharing)
      → names_or (block_names fn.blocks) (
          finish_sharing to_string to_string_signed
            (share_blocks to_string to_string_signed fn.blocks (without_blocks fn) s))
        ≡ block_names fn.blocks
  unfolding finish_sharing
  names_or-finish_sharing fn s =
      let r = share_blocks to_string to_string_signed fn.blocks (without_blocks fn) s in
      elim (Bool-cases (r.eliminated == 0)) [
        | inl nothing ↦ rw nothing
        | inr done ↦ rw done (
            finished_names r.function
            ∙ block_names-share_blocks fn.blocks (without_blocks fn) s
            ∙ unfold block_names in refl)
      ]

  pub names_or-simplify_cse :
      (fresh : ℕ) (fn : Function)
      → names_or (block_names fn.blocks) (simplify_cse to_string to_string_signed fresh fn)
        ≡ block_names fn.blocks
  unfolding simplify_cse
  names_or-simplify_cse fresh fn =
      elim (Bool-cases (any_duplicate_in to_string to_string_signed fn.blocks)) [
        | inr none_found ↦ rw none_found
        | inl found ↦ rw found (
            names_or-finish_sharing fn
              (record { binding = []; table = []; eliminated = 0; fresh = fresh; instrs = [] }))
      ]

  pub eliminate_dead_code-Keeps :
      (fresh : ℕ) (fn : Function)
      → Unrepeated (block_names fn.blocks)
      → Keeps fn (eliminate_dead_code to_string fresh fn)
  unfolding eliminate_dead_code eliminate finish
  eliminate_dead_code-Keeps fresh fn u =
      let work = deep_copy_function fresh fn in
      let (live, found, iff) = live_addresses_found work.blocks in
      let s = sweep_blocks live 0 work.blocks in
      elim (Bool-cases (s.removed == 0)) [
        | inl nothing ↦ rw (found, nothing) keeps_all
        | inr some_removed ↦
            rw (found, some_removed)
              (keeps_some (
                same_names-Narrowed fn
                  (compute_predecessors to_string (record work { blocks = s.blocks })) u
                  (block_names-compute_predecessors to_string (record work { blocks = s.blocks })
                    ∙ block_names-sweep_blocks live 0 work.blocks
                    ∙ block_names-deep_copy_function fresh fn)))
      ]

  drop_blocks-Narrowed :
      (fresh : ℕ) (work : Function) (dead : List String)
      → IsIndexed work
      → Unrepeated (block_names work.blocks)
      → Narrowed work (drop_blocks to_string fresh work dead)
  unfolding drop_blocks
  drop_blocks-Narrowed fresh work dead h u =
      let fixed : Function = record work { blocks = fix_blocks dead fresh work.blocks } in
      let ready = remap_operands_by_name fixed in
      let names : block_names ready.blocks ≡ block_names work.blocks =
        block_names-remap_operands_by_name fixed ∙ block_names-fix_blocks dead fresh work.blocks in
      let first = same_names-Narrowed work ready u names in
      let less =
        remove_blocks-Narrowed dead ready
          (names-IsIndexed work ready (sym names) (unfold remap_operands_by_name in refl) h)
          first.unrepeated in
      let last =
        same_names-Narrowed (remove_blocks dead ready)
          (compute_predecessors to_string (remove_blocks dead ready)) less.unrepeated
          (block_names-compute_predecessors to_string (remove_blocks dead ready)) in
      Narrowed-trans work ready (compute_predecessors to_string (remove_blocks dead ready)) first (
        Narrowed-trans ready (remove_blocks dead ready)
          (compute_predecessors to_string (remove_blocks dead ready)) less last)

  pub remove_unreachable_blocks-Keeps :
      (fresh : ℕ) (fn : Function)
      → Unrepeated (block_names fn.blocks)
      → Keeps fn (remove_unreachable_blocks to_string fresh fn)
  unfolding remove_unreachable_blocks prune_from prune_to
  remove_unreachable_blocks-Keeps fresh fn u =
      let work = deep_copy_function fresh fn in
      let h = deep_copy_function-IsIndexed fresh fn u in
      let copied = same_names-Narrowed fn work u (block_names-deep_copy_function fresh fn) in
      let fresh' = fresh + instruction_count work in
      elim (Bool-cases (ltb (length fn.blocks) 2)) [
        | inl few ↦ rw few keeps_all
        | inr more ↦ elim (Option-cases (get_elem? work.blocks 0)) [
          | inl no_entry ↦ rw (more, no_entry) keeps_all
          | inr (entry, first) ↦ elim (Option-cases (reachable_from to_string work entry.name)) [
            | inl too_few ↦
                absurd ((prune_from_iff to_string fresh' work entry "" h first).0 (rw too_few))
            | inr (r, found) ↦ elim (Bool-cases (length r == length work.blocks)) [
              | inl all ↦ rw (more, first, found, all) keeps_all
              | inr some_dead ↦
                  rw (more, first, found, some_dead)
                    (keeps_some (
                      Narrowed-trans fn work
                        (drop_blocks to_string fresh' work
                          (unreachable r (block_names work.blocks)))
                        copied
                        (drop_blocks-Narrowed fresh' work (unreachable r (block_names work.blocks))
                          h copied.unrepeated)))
            ]
          ]
        ]
      ]
