-- ===== src/Gpu/Best.antt =====
-- The number of blocks that `compute_occupancy` reports is the greatest that fits, and the occupancy is a
-- percentage.
use native.Mathlib.Nat.{mod-eq_of_lt, mul-le-mul, mul-pos}
use clunk.Base.{ℕ, ◌+◌, ◌*◌, ltb, if◌then◌else◌, ◌^◌, ◌≤◌, ◌<◌, ◌≡◌, refl, false, ◌==◌, arith}
use clunk.Gpu.Arch.{GpuArch, get_arch_limits, lookup_row, find_row, same_arch}
use clunk.Gpu.Occupancy.{
  warps_of, regs_rounded_of, regs_per_warp_of, regs_per_block_of, blocks_per_sm_of, limited_by_of,
  compute_occupancy, percentage,
}
use clunk.Gpu.Fits.{blocks_best, limited_by-uses, smem_binds}

warps-bounds :
    (arch : GpuArch) (threads : ℕ)
    → 0 < threads
    → threads ≤ 65536
    → (0 < warps_of (get_arch_limits arch) threads)
      × (warps_of (get_arch_limits arch) threads ≤ 2048)
unfolding get_arch_limits lookup_row find_row same_arch warps_of
warps-bounds GpuArch.sm_70 threads p h = (omega arith, omega arith)
warps-bounds _ threads p h = (omega arith, omega arith)

registers-bounds :
    (arch : GpuArch) (regs : ℕ)
    → regs < 2 ^ 31
    → (0 < regs_per_warp_of (get_arch_limits arch) regs)
      × (regs_per_warp_of (get_arch_limits arch) regs ≤ 8192)
unfolding get_arch_limits lookup_row find_row same_arch regs_per_warp_of regs_rounded_of
registers-bounds GpuArch.sm_70 regs h = (ground arith, ground arith)
registers-bounds _ regs h = (ground arith, ground arith)

block_registers_positive :
    (arch : GpuArch) (threads regs : ℕ)
    → 0 < threads
    → threads ≤ 65536
    → regs < 2 ^ 31
    → 0 < regs_per_block_of (get_arch_limits arch) threads regs
unfolding regs_per_block_of
block_registers_positive arch threads regs p h q =
    let (w, w_most) = warps-bounds arch threads p h in
    let (r, r_most) = registers-bounds arch regs q in
    omega (
      arith,
      mul-pos r w,
      mul-le-mul r_most w_most,
      mod-eq_of_lt
          {n = regs_per_warp_of (get_arch_limits arch) regs
            * warps_of (get_arch_limits arch) threads}
          {m = 2 ^ 32},
    )

reported :
    (arch : GpuArch) (threads regs smem : ℕ)
    → 0 < threads
    → let r = compute_occupancy arch threads regs smem in
      (r.warps_per_block ≡ warps_of (get_arch_limits arch) threads)
      × (r.regs_per_block ≡ regs_per_block_of (get_arch_limits arch) threads regs)
      × (r.blocks_per_sm ≡ blocks_per_sm_of (get_arch_limits arch) threads regs smem)
      × (r.limited_by ≡ limited_by_of (get_arch_limits arch) threads regs smem)
unfolding compute_occupancy
reported arch threads regs smem p =
    let asked : (threads == 0) ≡ false = ground arith in rw asked (refl, refl, refl, refl)

-- For a launch of 1 to 65,536 threads with fewer than 2 ^ 31 registers each, no number of blocks that
-- fits the warps, blocks, registers, threads and shared memory of a multiprocessor is greater than the
-- number that is reported.
pub compute_occupancy_best :
    (arch : GpuArch) (threads regs smem n : ℕ)
    → 0 < threads
    → threads ≤ 65536
    → regs < 2 ^ 31
    → n ≤ (get_arch_limits arch).max_blocks_per_sm
    → n * (compute_occupancy arch threads regs smem).warps_per_block
      ≤ (get_arch_limits arch).max_warps_per_sm
    → n * (compute_occupancy arch threads regs smem).regs_per_block
      ≤ (get_arch_limits arch).max_registers_per_sm
    → n * threads ≤ (get_arch_limits arch).max_threads_per_sm
    → n * smem ≤ (get_arch_limits arch).max_shared_memory_per_sm
    → n ≤ (compute_occupancy arch threads regs smem).blocks_per_sm
compute_occupancy_best arch threads regs smem n p h q hb hw hr ht hs =
    let (warps, registers, blocks, limit) = reported arch threads regs smem p in
    rw blocks (
      blocks_best (get_arch_limits arch) threads regs smem n p (warps-bounds arch threads p h).0
        (block_registers_positive arch threads regs p h q) hb (rw (← warps) hw)
        (rw (← registers) hr) ht hs)

-- For a launch of 1 to 65,536 threads with fewer than 2 ^ 31 registers each, the bits of `limited_by`
-- name the resources that stop one more block: 1 where its warps would exceed the warps of a
-- multiprocessor, 2 where the blocks reported are all it allows, 4, 8 and 16 where its registers, threads
-- and shared memory would exceed theirs. A block without shared memory sets 16 where 2 is set.
pub limited_by_exact :
    (arch : GpuArch) (threads regs smem : ℕ)
    → 0 < threads
    → threads ≤ 65536
    → regs < 2 ^ 31
    → let l = get_arch_limits arch in
      let r = compute_occupancy arch threads regs smem in
      let more = r.blocks_per_sm + 1 in
      r.limited_by
      ≡ (if ltb l.max_warps_per_sm (more * r.warps_per_block) then 1 else 0)
        + (if l.max_blocks_per_sm == r.blocks_per_sm then 2 else 0)
        + (if ltb l.max_registers_per_sm (more * r.regs_per_block) then 4 else 0)
        + (if ltb l.max_threads_per_sm (more * threads) then 8 else 0)
        + (if smem_binds l smem r.blocks_per_sm then 16 else 0)
limited_by_exact arch threads regs smem p h q =
    let (warps, registers, blocks, limit) = reported arch threads regs smem p in
    rw (warps, registers, blocks, limit)
      (limited_by-uses (get_arch_limits arch) threads regs smem p (warps-bounds arch threads p h).0
        (block_registers_positive arch threads regs p h q))

-- The occupancy is a percentage: at most 100.
pub occupancy_pct_bound :
    (arch : GpuArch) (threads regs smem : ℕ)
    → let pct = (compute_occupancy arch threads regs smem).occupancy_pct in pct.num ≤ 100 * pct.den
unfolding compute_occupancy percentage
occupancy_pct_bound arch threads regs smem = ground arith
