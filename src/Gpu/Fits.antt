-- ===== src/Gpu/Fits.antt =====
-- The blocks that `compute_occupancy` reports against the limits of the target.
use native.Mathlib.Nat.{le-div_iff_mul-le, mod-eq_of_lt}
use native.Mathlib.Decide.{dec_le}
use clunk.Base.{
  ℕ, zero, suc, ◌+◌, ◌*◌, ◌/◌, Bool, ltb, if◌then◌else◌, ◌^◌, ◌≤◌, ◌<◌, ◌≡◌, refl, ◌==◌, lt→ltb,
  Bool-cases, arith, inl, inr,
}
use clunk.Gpu.Arch.{GpuArch, ArchLimits, get_arch_limits, lookup_row, find_row, same_arch}
use clunk.Gpu.Occupancy.{
  u32, OccupancyInfo, blocks_by, warps_of, regs_per_block_of, blocks_by_smem_of, blocks_per_sm_of,
  limited_by_of, compute_occupancy,
}

positive_limit : (total need other : ℕ) → blocks_by total (suc need) other ≡ total / suc need
positive_limit total need other = rw (lt→ltb 0 (suc need) (omega arith)) refl

-- A limit on blocks keeps the use within the total.
blocks_by_fits : (total need n : ℕ) → n ≤ blocks_by total need 0 → n * need ≤ total
blocks_by_fits total zero n h = ground arith
blocks_by_fits total (suc need) n h =
    (le-div_iff_mul-le (omega arith)).0 (omega (arith, positive_limit total need 0))

blocks_by_best :
    (total need other n : ℕ) → 0 < need → n * need ≤ total → n ≤ blocks_by total need other
blocks_by_best total zero other n p h = absurd (omega arith)
blocks_by_best total (suc need) other n p h =
    omega
      (arith, (le-div_iff_mul-le {k = suc need} (omega arith)).1 h, positive_limit total need other)

-- A limit is the number of blocks exactly when one more block would not fit.
binds :
    (total need other n : ℕ)
    → 0 < need
    → n ≤ blocks_by total need other
    → (blocks_by total need other == n) ≡ ltb total ((n + 1) * need)
binds total zero other n p h = absurd (omega arith)
binds total (suc need) other n p h =
    let limit = positive_limit total need other in
    let next = le-div_iff_mul-le {k = suc need} {x = n + 1} {y = total} (omega arith) in
    elim (dec_le ((n + 1) * suc need) total) [
      | yes fits ↦ let more = next.1 fits in ground (arith, limit)
      | no over ↦
          let same : n ≡ total / suc need = elim (dec_le (n + 1) (total / suc need)) [
            | yes more ↦ absurd (over (next.0 more))
            | no least ↦ omega (arith, limit)
          ] in
          ground (arith, limit)
    ]

-- One more block would exceed the shared memory; where a block takes none, the limit on blocks stands in.
unfoldable pub smem_binds : ArchLimits → ℕ → ℕ → Bool
smem_binds l zero n = l.max_blocks_per_sm == n
smem_binds l (suc s) n = ltb l.max_shared_memory_per_sm ((n + 1) * suc s)

smem_binds_lem :
    (l : ArchLimits) (smem n : ℕ)
    → n ≤ blocks_by_smem_of l smem
    → (blocks_by_smem_of l smem == n) ≡ smem_binds l smem n
unfolding blocks_by_smem_of smem_binds
smem_binds_lem l zero n h = refl
smem_binds_lem l (suc s) n h =
    binds l.max_shared_memory_per_sm (suc s) l.max_blocks_per_sm n (omega arith) h

module _ (l : ArchLimits) (threads regs smem : ℕ) where
  abbrev blocks : ℕ
  blocks = blocks_per_sm_of l threads regs smem

  below_limits :
      (blocks ≤ blocks_by l.max_warps_per_sm (warps_of l threads) 0)
      × (blocks ≤ l.max_blocks_per_sm)
      × (blocks ≤ blocks_by l.max_registers_per_sm (regs_per_block_of l threads regs) 0)
      × (blocks ≤ blocks_by l.max_threads_per_sm threads 0)
      × (blocks ≤ blocks_by_smem_of l smem)
  unfolding blocks_per_sm_of
  below_limits = (omega arith, omega arith, omega arith, omega arith, omega arith)

  smem_fits_of : (s : ℕ) → blocks ≤ blocks_by_smem_of l s → blocks * s ≤ l.max_shared_memory_per_sm
  unfolding blocks_by_smem_of
  smem_fits_of zero h = omega arith
  smem_fits_of (suc s) h =
      (le-div_iff_mul-le (omega arith)).0
        (omega (arith, h, positive_limit l.max_shared_memory_per_sm s l.max_blocks_per_sm))

  pub smem_fits : blocks * smem ≤ l.max_shared_memory_per_sm
  unfolding blocks_by_smem_of
  smem_fits = smem_fits_of smem below_limits.4

  smem_limit :
      (s k : ℕ)
      → k * s ≤ l.max_shared_memory_per_sm
      → k ≤ l.max_blocks_per_sm
      → k ≤ blocks_by_smem_of l s
  unfolding blocks_by_smem_of
  smem_limit zero k h b = b
  smem_limit (suc s) k h b =
      blocks_by_best l.max_shared_memory_per_sm (suc s) l.max_blocks_per_sm k (omega arith) h

  pub blocks_best :
      (n : ℕ)
      → 0 < threads
      → 0 < warps_of l threads
      → 0 < regs_per_block_of l threads regs
      → n ≤ l.max_blocks_per_sm
      → n * warps_of l threads ≤ l.max_warps_per_sm
      → n * regs_per_block_of l threads regs ≤ l.max_registers_per_sm
      → n * threads ≤ l.max_threads_per_sm
      → n * smem ≤ l.max_shared_memory_per_sm
      → n ≤ blocks
  unfolding blocks_per_sm_of
  blocks_best n t w r hb hw hr ht hs = omega (
    arith,
    blocks_by_best _ _ 0 n w hw,
    blocks_by_best _ _ 0 n r hr,
    blocks_by_best _ _ 0 n t ht,
    smem_limit smem n hs hb,
  )

  -- The bits of `limited_by`, each from the use of one more block.
  pub limited_by-uses :
      0 < threads
      → 0 < warps_of l threads
      → 0 < regs_per_block_of l threads regs
      → limited_by_of l threads regs smem
        ≡ (if ltb l.max_warps_per_sm ((blocks + 1) * warps_of l threads) then 1 else 0)
          + (if l.max_blocks_per_sm == blocks then 2 else 0)
          + (if ltb l.max_registers_per_sm ((blocks + 1) * regs_per_block_of l threads regs)
              then 4
              else 0)
          + (if ltb l.max_threads_per_sm ((blocks + 1) * threads) then 8 else 0)
          + (if smem_binds l smem blocks then 16 else 0)
  unfolding limited_by_of
  limited_by-uses t w r =
      let (by_warps, by_blocks, by_registers, by_threads, by_smem) = below_limits in
      rw
        (
          binds l.max_warps_per_sm (warps_of l threads) 0 blocks w by_warps,
          binds l.max_registers_per_sm (regs_per_block_of l threads regs) 0 blocks r by_registers,
          binds l.max_threads_per_sm threads 0 blocks t by_threads,
          smem_binds_lem l smem blocks by_smem,
        )
        refl

abbrev pub Fits : ArchLimits → ℕ → OccupancyInfo → Type 0
Fits l smem r =
    (r.achieved_warps_per_sm ≡ r.blocks_per_sm * r.warps_per_block)
    × (r.achieved_warps_per_sm ≤ l.max_warps_per_sm)
    × (r.blocks_per_sm ≤ l.max_blocks_per_sm)
    × (r.regs_per_sm_used ≡ r.blocks_per_sm * r.regs_per_block)
    × (r.regs_per_sm_used ≤ l.max_registers_per_sm)
    × (r.threads_per_sm ≡ r.blocks_per_sm * r.threads_per_block)
    × (r.threads_per_sm ≤ l.max_threads_per_sm)
    × (r.blocks_per_sm * smem ≤ l.max_shared_memory_per_sm)

limits_small :
    (arch : GpuArch)
    → let l = get_arch_limits arch in
      (l.max_warps_per_sm < 2 ^ 32)
      × (l.max_registers_per_sm < 2 ^ 32)
      × (l.max_threads_per_sm < 2 ^ 32)
unfolding get_arch_limits lookup_row find_row same_arch
limits_small GpuArch.sm_70 = (omega arith, omega arith, omega arith)
limits_small _ = (omega arith, omega arith, omega arith)

-- A product below the limit does not wrap.
no_wrap : (n limit : ℕ) → n ≤ limit → limit < 2 ^ 32 → (u32 n ≡ n) × (u32 n ≤ limit)
no_wrap n limit h p = let e = mod-eq_of_lt {n = n} {m = 2 ^ 32} (omega arith) in (e, rw e h)

-- What is reported as used on a multiprocessor is the use of that many blocks, with no wrap, and
-- exceeds no limit of the target: warps, blocks, registers, threads and shared memory.
pub compute_occupancy-Fits :
    (arch : GpuArch) (threads regs smem : ℕ)
    → Fits (get_arch_limits arch) smem (compute_occupancy arch threads regs smem)
unfolding compute_occupancy
compute_occupancy-Fits arch threads regs smem = elim (Bool-cases (threads == 0)) [
  | inl none_asked ↦ rw none_asked (
    omega arith,
    omega arith,
    omega arith,
    omega arith,
    omega arith,
    omega arith,
    omega arith,
    omega arith,
  )
  | inr some_asked ↦
      let l = get_arch_limits arch in
      let below = below_limits l threads regs smem in
      let small = limits_small arch in
      let warps = no_wrap _ _ (blocks_by_fits _ _ _ below.0) small.0 in
      let registers = no_wrap _ _ (blocks_by_fits _ _ _ below.2) small.1 in
      let used_threads = no_wrap _ _ (blocks_by_fits _ _ _ below.3) small.2 in
      rw some_asked (
        warps.0,
        warps.1,
        below.1,
        registers.0,
        registers.1,
        used_threads.0,
        used_threads.1,
        smem_fits l threads regs smem,
      )
]
