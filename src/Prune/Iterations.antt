-- ===== src/Prune/Iterations.antt =====
-- The rounds of `prune_dataflow` end, and no pass adds a block or gives a name to two of them.
use Prim.Native.String.{String}
use clunk.Base.{
  ℕ, zero, suc, ◌≡◌, refl, false, Option, some, none, string_key, Bool-cases, inl, inr,
}
use clunk.Base.Sets.{Unrepeated}
use clunk.Ir.Function.{Function}
use clunk.Ir.Named.{block_names}
use clunk.Prune.Dead.{Outcome, unchanged, changed, out_of_fuel, eliminate_dead_code}
use clunk.Prune.Unreachable.{remove_unreachable_blocks}
use clunk.Prune.Folds.{simplify_known_bits}
use clunk.Prune.Cse.{
  simplify_cse, Round, after_option, after_outcome, prune_round, prune_rounds, prune_dataflow,
  fold_step, share_step, reach_step, max_iterations,
}
use clunk.Prune.Rounds.{Narrowed, same_names-Narrowed, Narrowed-trans}
use clunk.Prune.Ends.{
  names_or, Keeps, keeps_all, keeps_some, names_or-simplify_known_bits, names_or-simplify_cse,
  eliminate_dead_code-Keeps, remove_unreachable_blocks-Keeps,
}

-- What a round keeps to.
record Steady (fn : Function) (r : Round) : Type 0 where
  narrowed : Narrowed fn r.base
  going : r.stuck ≡ false

after_option-Steady :
    {A : Type 0} (fn : Function) (r : Round) (o : Option (Function × A))
    → Steady fn r
    → names_or (block_names r.base.blocks) o ≡ block_names r.base.blocks
    → Steady fn (after_option o r)
unfolding after_option
after_option-Steady fn r none h e = h
after_option-Steady fn r (some (g, count)) h e = record {
  narrowed =
      Narrowed-trans fn r.base g h.narrowed (same_names-Narrowed r.base g h.narrowed.unrepeated e);
  going = h.going;
}

after_outcome-Steady :
    (fn : Function) (r : Round) (o : Outcome)
    → Steady fn r
    → Keeps r.base o
    → Steady fn (after_outcome o r)
unfolding after_outcome
after_outcome-Steady fn r unchanged h k = h
after_outcome-Steady fn r (changed g count) h (keeps_some less) = record {
  narrowed = Narrowed-trans fn r.base g h.narrowed less;
  going = h.going;
}
after_outcome-Steady fn r out_of_fuel h k = elim k [ ]

module _ (to_string to_string_signed : ℕ → String) (stoul : String → Option ℕ)
    (next_fresh : Function → ℕ) where
  prune_round-Steady :
      (fn : Function)
      → Unrepeated (block_names fn.blocks)
      → Steady fn (prune_round to_string to_string_signed stoul next_fresh fn)
  unfolding prune_round
  prune_round-Steady fn u =
      let start : Round = record { base = fn; changed_now = false; stuck = false } in
      let r1 = fold_step to_string to_string_signed stoul next_fresh start in
      let r2 = share_step to_string to_string_signed stoul next_fresh r1 in
      let r3 = reach_step to_string to_string_signed stoul next_fresh r2 in
      let h0 : Steady fn start = record {
        narrowed = same_names-Narrowed fn fn u refl;
        going = refl;
      } in
      let h1 : Steady fn r1 =
        after_option-Steady fn start (simplify_known_bits to_string stoul (next_fresh fn) fn) h0
          (names_or-simplify_known_bits to_string to_string_signed stoul (next_fresh fn) fn) in
      let h2 : Steady fn r2 =
        after_option-Steady fn r1
          (simplify_cse to_string to_string_signed (next_fresh r1.base) r1.base) h1
          (names_or-simplify_cse to_string to_string_signed (next_fresh r1.base) r1.base) in
      let h3 : Steady fn r3 =
        after_outcome-Steady fn r2
          (remove_unreachable_blocks to_string (next_fresh r2.base) r2.base) h2
          (remove_unreachable_blocks-Keeps to_string to_string_signed (next_fresh r2.base) r2.base
            h2.narrowed.unrepeated) in
      after_outcome-Steady fn r3 (eliminate_dead_code to_string (next_fresh r3.base) r3.base) h3 (
        eliminate_dead_code-Keeps to_string to_string_signed (next_fresh r3.base) r3.base
          h3.narrowed.unrepeated)

  prune_rounds-Keeps :
      (left : ℕ) (fn base : Function) (current : Outcome)
      → Keeps fn current
      → Narrowed fn base
      → Keeps fn (prune_rounds to_string to_string_signed stoul next_fresh left base current)
  unfolding prune_rounds
  prune_rounds-Keeps zero fn base current k h = k
  prune_rounds-Keeps (suc left) fn base current k h =
      let r = prune_round to_string to_string_signed stoul next_fresh base in
      let steady = prune_round-Steady base h.unrepeated in
      let on = Narrowed-trans fn base r.base h steady.narrowed in
      elim (Bool-cases r.changed_now) [
        | inr quiet ↦ rw (steady.going, quiet) k
        | inl busy ↦
            rw (steady.going, busy)
              (prune_rounds-Keeps left fn r.base (changed r.base 0) (keeps_some on) on)
      ]

  -- `prune_dataflow` ends for every function in which no name is given to two blocks: it leaves the
  -- function, or gives one in which no name is given to two blocks either, and whose blocks have names
  -- that the function had.
  pub prune_dataflow-Keeps :
      (fn : Function)
      → Unrepeated (block_names fn.blocks)
      → Keeps fn (prune_dataflow to_string to_string_signed stoul next_fresh fn)
  unfolding prune_dataflow
  prune_dataflow-Keeps fn u =
      prune_rounds-Keeps max_iterations fn fn unchanged keeps_all (same_names-Narrowed fn fn u refl)
