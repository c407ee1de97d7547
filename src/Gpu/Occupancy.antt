-- ===== src/Gpu/Occupancy.antt =====
-- `compute_occupancy` (src/GPU/ArchLimits.cpp). `unsigned` arithmetic wraps at 32 bits. A `double` ratio
-- is kept as an exact fraction; rounding is not modelled.
use clunk.Base.{ℕ, ◌+◌, ◌-◌, ◌*◌, ◌/◌, ◌%◌, ◌^◌, if◌then◌else◌, ◌==◌, ltb, leb, min, ◌||◌}
use clunk.Gpu.Arch.{GpuArch, ArchLimits, get_arch_limits}

abbrev pub u32 : ℕ → ℕ
u32 n = n % 2 ^ 32

pub record Fraction : Type 0 where
  pub num : ℕ
  pub den : ℕ

pub record OccupancyInfo : Type 0 where
  pub arch : GpuArch
  pub threads_per_block : ℕ
  pub warps_per_block : ℕ
  pub regs_per_thread : ℕ
  pub regs_per_thread_rounded : ℕ
  pub regs_per_warp : ℕ
  pub regs_per_block : ℕ
  pub regs_per_sm_used : ℕ
  pub blocks_per_sm : ℕ
  pub achieved_warps_per_sm : ℕ
  pub theoretical_max_warps_per_sm : ℕ
  pub occupancy_pct : Fraction
  pub limited_by : ℕ
  pub occupancy_ratio : Fraction
  pub threads_per_sm : ℕ
  pub shared_mem_per_block : ℕ
  pub registers_per_sm : ℕ
  pub max_threads_per_sm : ℕ
  pub max_blocks_per_sm : ℕ

-- `((n + unit - 1) / unit) * unit`
abbrev pub round_up : ℕ → ℕ → ℕ
round_up n unit = u32 (u32 (n + unit + (2 ^ 32 - 1)) / unit * unit)

-- The limit on blocks that a resource of `total` units sets, when a block takes `need`.
abbrev pub blocks_by : ℕ → ℕ → ℕ → ℕ
blocks_by total need otherwise = if ltb 0 need then total / need else otherwise

abbrev or_default : ℕ → ℕ → ℕ
or_default n default = if ltb 0 n then n else default

unfoldable pub warps_of : ArchLimits → ℕ → ℕ
warps_of l threads =
    let warp_size = or_default l.warp_size 32 in
    u32 (threads + warp_size + (2 ^ 32 - 1)) / warp_size

unfoldable pub regs_rounded_of : ArchLimits → ℕ → ℕ
regs_rounded_of l regs =
    let rounded = round_up (or_default regs 1) (or_default l.register_alloc_granularity 1) in
    if ltb l.max_registers_per_thread rounded then l.max_registers_per_thread else rounded

unfoldable pub regs_per_warp_of : ArchLimits → ℕ → ℕ
regs_per_warp_of l regs =
    round_up (u32 (regs_rounded_of l regs * or_default l.warp_size 32))
      (or_default l.register_alloc_unit 256)

unfoldable pub regs_per_block_of : ArchLimits → ℕ → ℕ → ℕ
regs_per_block_of l threads regs = u32 (regs_per_warp_of l regs * warps_of l threads)

-- The five limits of step 4 and the least of them.
unfoldable pub blocks_by_smem_of : ArchLimits → ℕ → ℕ
blocks_by_smem_of l smem = blocks_by l.max_shared_memory_per_sm smem l.max_blocks_per_sm

unfoldable pub blocks_per_sm_of : ArchLimits → ℕ → ℕ → ℕ → ℕ
blocks_per_sm_of l threads regs smem = min (blocks_by l.max_warps_per_sm (warps_of l threads) 0) (
    min l.max_blocks_per_sm (
      min (blocks_by l.max_registers_per_sm (regs_per_block_of l threads regs) 0)
        (min (blocks_by l.max_threads_per_sm threads 0) (blocks_by_smem_of l smem))))

abbrev flag : ℕ → ℕ → ℕ → ℕ
flag limit cur_min bit = if limit == cur_min then bit else 0

-- The bits are distinct, so `|` is `+`.
unfoldable pub limited_by_of : ArchLimits → ℕ → ℕ → ℕ → ℕ
limited_by_of l threads regs smem =
    let cur_min = blocks_per_sm_of l threads regs smem in
    flag (blocks_by l.max_warps_per_sm (warps_of l threads) 0) cur_min 1
    + flag l.max_blocks_per_sm cur_min 2
    + flag (blocks_by l.max_registers_per_sm (regs_per_block_of l threads regs) 0) cur_min 4
    + flag (blocks_by l.max_threads_per_sm threads 0) cur_min 8
    + flag (blocks_by_smem_of l smem) cur_min 16

-- `100.0 * achieved / max`, at most 100; 0 where there is no maximum.
unfoldable pub percentage : ℕ → ℕ → Fraction
percentage achieved max_warps =
    if ltb 0 max_warps
    then (if ltb max_warps achieved
        then record { num = 100; den = 1 }
        else record { num = 100 * achieved; den = max_warps })
    else record { num = 0; den = 1 }

unfoldable pub ratio_of : Fraction → Fraction
ratio_of pct = record { num = pct.num; den = pct.den * 100 }

unfoldable pub compute_occupancy : GpuArch → ℕ → ℕ → ℕ → OccupancyInfo
compute_occupancy arch threads regs smem =
    let l = get_arch_limits arch in
    let warps = warps_of l threads in
    let regs_block = regs_per_block_of l threads regs in
    let blocks = blocks_per_sm_of l threads regs smem in
    let achieved = u32 (blocks * warps) in
    let pct = percentage achieved l.max_warps_per_sm in
    if threads == 0
    then record {
      arch = arch;
      threads_per_block = 0;
      warps_per_block = 0;
      regs_per_thread = regs;
      regs_per_thread_rounded = 0;
      regs_per_warp = 0;
      regs_per_block = 0;
      regs_per_sm_used = 0;
      blocks_per_sm = 0;
      achieved_warps_per_sm = 0;
      theoretical_max_warps_per_sm = 0;
      occupancy_pct = record { num = 0; den = 1 };
      limited_by = 0;
      occupancy_ratio = record { num = 0; den = 1 };
      threads_per_sm = 0;
      shared_mem_per_block = smem;
      registers_per_sm = l.max_registers_per_sm;
      max_threads_per_sm = l.max_threads_per_sm;
      max_blocks_per_sm = l.max_blocks_per_sm;
    }
    else record {
      arch = arch;
      threads_per_block = threads;
      warps_per_block = warps;
      regs_per_thread = regs;
      regs_per_thread_rounded = regs_rounded_of l regs;
      regs_per_warp = regs_per_warp_of l regs;
      regs_per_block = regs_block;
      regs_per_sm_used = u32 (blocks * regs_block);
      blocks_per_sm = blocks;
      achieved_warps_per_sm = achieved;
      theoretical_max_warps_per_sm = l.max_warps_per_sm;
      occupancy_pct = pct;
      limited_by = limited_by_of l threads regs smem;
      occupancy_ratio = ratio_of pct;
      threads_per_sm = u32 (blocks * threads);
      shared_mem_per_block = smem;
      registers_per_sm = l.max_registers_per_sm;
      max_threads_per_sm = l.max_threads_per_sm;
      max_blocks_per_sm = l.max_blocks_per_sm;
    }

-- The penalty of a candidate that takes more registers than the baseline (src/GPU/OccupancyModel.cpp):
-- a hundred times what is lost of the ratio, as a fraction; 0 where nothing is lost.
unfoldable pub clamp_ratio : Fraction → Fraction
clamp_ratio r = if ltb r.den r.num then record { num = 1; den = 1 } else r

unfoldable pub occupancy_penalty : GpuArch → ℕ → ℕ → ℕ → ℕ → Fraction
occupancy_penalty arch baseline_regs candidate_regs threads smem =
    let prev = clamp_ratio (compute_occupancy arch threads baseline_regs smem).occupancy_ratio in
    let curr = clamp_ratio (compute_occupancy arch threads candidate_regs smem).occupancy_ratio in
    if threads == 0 || leb (prev.num * curr.den) (curr.num * prev.den)
    then record { num = 0; den = 1 }
    else record {
      num = (prev.num * curr.den - curr.num * prev.den) * 100;
      den = prev.den * curr.den;
    }

-- The overload that asks whether the last register crossed a cliff.
unfoldable pub last_register_penalty : GpuArch → ℕ → ℕ → ℕ → Fraction
last_register_penalty arch regs threads smem =
    if regs == 0
    then record { num = 0; den = 1 }
    else occupancy_penalty arch (regs - 1) regs threads smem
