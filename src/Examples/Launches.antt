-- ===== src/Examples/Launches.antt =====
-- Targets and launches for the occupancy calculation (src/GPU/ArchLimits.cpp).
use clunk.Base.{◌≤◌, ◌≡◌, ◌≢◌, arith}
use clunk.Gpu.Arch.{
  GpuArch, get_arch_limits, gpu_arch_name, arch_from_compute_capability, lookup_row, find_row,
  same_arch,
}
use clunk.Gpu.Occupancy.{
  compute_occupancy, warps_of, regs_rounded_of, regs_per_warp_of, regs_per_block_of,
  blocks_per_sm_of, blocks_by_smem_of,
}
use clunk.Gpu.Fits.{Fits, smem_binds, compute_occupancy-Fits}
use clunk.Gpu.Best.{compute_occupancy_best, limited_by_exact}
use clunk.Gpu.Targets.{capability, get_arch_limits_own, arch_from_compute_capability_best}

compute_occupancy-Fits_example :
    Fits (get_arch_limits GpuArch.sm_80) 4096 (compute_occupancy GpuArch.sm_80 256 40 4096)
compute_occupancy-Fits_example = compute_occupancy-Fits GpuArch.sm_80 256 40 4096

compute_occupancy_best_example : 6 ≤ (compute_occupancy GpuArch.sm_80 256 40 4096).blocks_per_sm
unfolding compute_occupancy get_arch_limits lookup_row find_row same_arch warps_of regs_rounded_of
    regs_per_warp_of regs_per_block_of
compute_occupancy_best_example =
    compute_occupancy_best GpuArch.sm_80 256 40 4096 6 (omega arith) (omega arith) (omega arith)
      (omega arith) (omega arith) (omega arith) (omega arith) (omega arith)

limited_by_exact_example : (compute_occupancy GpuArch.sm_90 1024 255 0).limited_by ≡ 4
unfolding compute_occupancy get_arch_limits lookup_row find_row same_arch warps_of regs_rounded_of
    regs_per_warp_of regs_per_block_of smem_binds blocks_per_sm_of blocks_by_smem_of
limited_by_exact_example =
    limited_by_exact GpuArch.sm_90 1024 255 0 (omega arith) (omega arith) (omega arith)

get_arch_limits_own_example :
    ((get_arch_limits GpuArch.sm_86).arch ≡ GpuArch.sm_86)
    × ((get_arch_limits GpuArch.sm_86).name ≡ gpu_arch_name GpuArch.sm_86)
    × (arch_from_compute_capability (get_arch_limits GpuArch.sm_86).compute_capability
        ≡ GpuArch.sm_86)
get_arch_limits_own_example = get_arch_limits_own GpuArch.sm_86 (λ e. absurd (cc))

arch_from_compute_capability_best_example :
    (arch_from_compute_capability 87 ≢ GpuArch.unknown)
    × (capability (arch_from_compute_capability 87) ≤ 87)
    × (capability GpuArch.sm_80 ≤ capability (arch_from_compute_capability 87))
unfolding get_arch_limits lookup_row find_row same_arch
arch_from_compute_capability_best_example =
    arch_from_compute_capability_best 87 GpuArch.sm_80 (omega arith) (omega arith) (omega arith)
