-- ===== src/Prune/Reachable.antt =====
-- The blocks that the removal of unreachable blocks leaves are those that the entry reaches.
use Prim.Native.String.{String}
use mathlib.Core.Path.{subst}
use clunk.Base.{
  ℕ, ◌+◌, ◌<◌, ◌≡◌, ◌≢◌, ◌↔◌, refl, sym, ap, ◌∙◌, true, false, ◌==◌, ltb, some, List, [], ◌∷◌,
  get_elem?, length, string_key, Option-cases, Bool-cases, inl, inr, arith,
}
use clunk.Base.Sets.{contains, Unrepeated, contains_all}
use clunk.Base.Worklist.{queue}
use clunk.Base.Worklist.Reached.{Reach, seed, step, closure_iff, closure_ends, closure-Unrepeated}
use clunk.Ir.Function.{BasicBlock, Function}
use clunk.Ir.Blocks.{block, successors}
use clunk.Ir.Index.{IsIndexed}
use clunk.Ir.Clone.{define_blocks, deep_copy_function, remap_operands_by_name, instruction_count}
use clunk.Ir.Named.{
  block_names, block_names-remap_blocks, names-IsIndexed, Stands-iff,
  block_names-compute_predecessors,
}
use clunk.Ir.Removed.{block_names-deep_copy_function, deep_copy_function-IsIndexed}
use clunk.Prune.Dead.{Outcome, unchanged, changed, out_of_fuel}
use clunk.Prune.Unreachable.{
  fix_blocks, remove_blocks, unreachable, edges_of, edges, reachable_from, drop_blocks, prune_to,
  prune_from, remove_unreachable_blocks,
}
use clunk.Prune.Names.{
  contains-unreachable, contains-remove_blocks, block_names-fix_blocks, position_contains, only_one,
  contains-existing,
}

-- The names of the blocks that a pass on `work` leaves.
abbrev pub names_left : Function → Outcome → List String
names_left work unchanged = block_names work.blocks
names_left work (changed result removed) = block_names result.blocks
names_left work out_of_fuel = []

length-block_names : (bs : List BasicBlock) → length (block_names bs) ≡ length bs
unfolding block_names
length-block_names [] = refl
length-block_names (b ∷ rest) = omega (arith, length-block_names rest)

module _ (to_string : ℕ → String) where
  edges_within :
      (fn : Function) (u n : String)
      → IsIndexed fn
      → contains n (edges to_string fn u) ≡ true
      → contains n (block_names fn.blocks) ≡ true
  unfolding edges edges_of contains
  edges_within fn u n h m = elim (Option-cases (block fn u)) [
    | inl missing ↦ absurd (ground arith)
    | inr (b, found) ↦ contains-existing fn (successors to_string b) n h (simp found at m)
  ]

  -- The block that the entry reaches along the successors that exist.
  abbrev pub Reachable : Function → String → String → Type 0
  Reachable fn entry n = Reach (edges to_string fn) (entry ∷ []) n

  Reachable-within :
      (fn : Function) (entry n : String)
      → IsIndexed fn
      → contains entry (block_names fn.blocks) ≡ true
      → Reachable fn entry n
      → contains n (block_names fn.blocks) ≡ true
  unfolding contains
  Reachable-within fn entry n h e (seed m) = ground (arith, string_key.same_iff entry n)
  Reachable-within fn entry n h e (step {u} p edge) = edges_within fn u n h edge

  contains-drop_blocks :
      (fresh : ℕ) (work : Function) (dead : List String) (n : String)
      → IsIndexed work
      → (contains n (block_names (drop_blocks to_string fresh work dead).blocks) ≡ true)
        ↔ ((contains n (block_names work.blocks) ≡ true) × (contains n dead ≡ false))
  unfolding drop_blocks
  contains-drop_blocks fresh work dead n h =
      let fixed : Function = record work { blocks = fix_blocks dead fresh work.blocks } in
      let ready = remap_operands_by_name fixed in
      let names : block_names ready.blocks ≡ block_names work.blocks =
        unfold remap_operands_by_name in
        (block_names-remap_blocks (define_blocks fixed.blocks []) fixed.blocks
          ∙ block_names-fix_blocks dead fresh work.blocks) in
      let indexed =
        names-IsIndexed work ready (sym names) (unfold remap_operands_by_name in refl) h in
      subst
        (λ l.
          (contains n l ≡ true)
          ↔ ((contains n (block_names work.blocks) ≡ true) × (contains n dead ≡ false)))
        (sym (block_names-compute_predecessors to_string (remove_blocks dead ready)))
        (subst
          (λ l.
            (contains n (block_names (remove_blocks dead ready).blocks) ≡ true)
            ↔ ((contains n l ≡ true) × (contains n dead ≡ false)))
          names (contains-remove_blocks dead ready n indexed))

  prune_to_iff :
      (fresh : ℕ) (work : Function) (entry : String) (r : List String) (n : String)
      → IsIndexed work
      → contains entry (block_names work.blocks) ≡ true
      → reachable_from to_string work entry ≡ some r
      → (contains n (names_left work (prune_to to_string fresh work (some r))) ≡ true)
        ↔ Reachable work entry n
  unfolding prune_to reachable_from
  prune_to_iff fresh work entry r n h e found =
      let next = edges to_string work in
      let iff =
        λ (m : String). closure_iff queue next (entry ∷ []) (length work.blocks) r m found in
      let dead = unreachable r (block_names work.blocks) in
      let within =
        λ (m : String) (i : contains m r ≡ true). Reachable-within work entry m h e ((iff m).0 i) in
      elim (Bool-cases (length r == length work.blocks)) [
        | inl all ↦ rw all (
          λ m. (iff n).0 (
              contains_all (block_names work.blocks) r n
                (closure-Unrepeated queue next (entry ∷ []) (length work.blocks) r found) within
                (ground (arith, length-block_names work.blocks)) m),
          λ reach. Reachable-within work entry n h e reach,
        )
        | inr some_dead ↦
            let left = contains-drop_blocks fresh work dead n h in
            let gone = contains-unreachable r (block_names work.blocks) n in
            rw some_dead (
              λ m. (iff n).0 (ground (arith, left, gone)),
              λ reach. let alive = (iff n).1 reach in ground (arith, left, gone, within n alive),
            )
      ]

  prune_to_ends :
      (fresh : ℕ) (work : Function) (r : List String)
      → prune_to to_string fresh work (some r) ≢ out_of_fuel
  unfolding prune_to
  prune_to_ends fresh work r = elim (Bool-cases (length r == length work.blocks)) [
    | inl all ↦ rw all (λ e. absurd (cc))
    | inr some_dead ↦ rw some_dead (λ e. absurd (cc))
  ]

  -- The search ends and the blocks that are left are those that the first block reaches.
  pub prune_from_iff :
      (fresh : ℕ) (work : Function) (entry : BasicBlock) (n : String)
      → IsIndexed work
      → get_elem? work.blocks 0 ≡ some entry
      → (prune_from to_string fresh work (some entry) ≢ out_of_fuel)
        × ((contains n (names_left work (prune_from to_string fresh work (some entry))) ≡ true)
            ↔ Reachable work entry.name n)
  unfolding prune_from
  prune_from_iff fresh work entry n h first =
      let next = edges to_string work in
      let there =
        position_contains (block_names work.blocks) 0 entry.name
          ((Stands-iff work.blocks entry.name 0).0 (entry, first, refl)) in
      let (r, found) =
        closure_ends queue next (entry.name ∷ []) (block_names work.blocks) (length work.blocks)
          (λ v m. Reachable-within work entry.name v h there (seed m))
          (λ u v m. edges_within work u v h m) (omega (arith, length-block_names work.blocks)) in
      let reached : reachable_from to_string work entry.name ≡ some r =
        unfold reachable_from in found in
      rw reached
        (prune_to_ends fresh work r, prune_to_iff fresh work entry.name r n h there reached)

  -- The pass ends. The blocks that it leaves are those that the first block reaches, where no name is
  -- given to two blocks.
  pub remove_unreachable_blocks_iff :
      (fresh : ℕ) (fn : Function) (entry : BasicBlock) (n : String)
      → Unrepeated (block_names fn.blocks)
      → get_elem? (deep_copy_function fresh fn).blocks 0 ≡ some entry
      → (remove_unreachable_blocks to_string fresh fn ≢ out_of_fuel)
        × ((contains n (
                names_left
                  (deep_copy_function fresh fn)
                  (remove_unreachable_blocks to_string fresh fn))
              ≡ true)
            ↔ Reachable (deep_copy_function fresh fn) entry.name n)
  unfolding remove_unreachable_blocks
  remove_unreachable_blocks_iff fresh fn entry n u first =
      let work = deep_copy_function fresh fn in
      let h = deep_copy_function-IsIndexed fresh fn u in
      let at : get_elem? (block_names work.blocks) 0 ≡ some entry.name =
        (Stands-iff work.blocks entry.name 0).0 (entry, first, refl) in
      elim (Bool-cases (ltb (length fn.blocks) 2)) [
        | inr more ↦
            rw (more, first) (prune_from_iff (fresh + instruction_count work) work entry n h first)
        | inl few ↦
            let short : length (block_names work.blocks) < 2 = ground (
              arith,
              ap length (block_names-deep_copy_function fresh fn),
              length-block_names fn.blocks,
            ) in
            rw few (
              λ e. absurd (cc),
              (
                λ m. seed (only_one (block_names work.blocks) entry.name n short at m),
                λ reach.
                    Reachable-within work entry.name n h
                      (position_contains (block_names work.blocks) 0 entry.name at) reach,
              ),
            )
      ]
