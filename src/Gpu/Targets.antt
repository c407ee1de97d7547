-- ===== src/Gpu/Targets.antt =====
-- Names and compute capabilities of the architectures.
use clunk.Base.{ℕ, ◌^◌, ◌≤◌, ◌<◌, ◌≡◌, ◌≢◌, refl, arith}
use clunk.Gpu.Arch.{
  GpuArch, get_arch_limits, lookup_row, find_row, same_arch, gpu_arch_name,
  arch_from_compute_capability,
}

-- For an architecture of the table, the limits carry its own tag and its own name, and its compute
-- capability selects it again.
pub get_arch_limits_own :
    (arch : GpuArch)
    → arch ≢ GpuArch.unknown
    → ((get_arch_limits arch).arch ≡ arch)
      × ((get_arch_limits arch).name ≡ gpu_arch_name arch)
      × (arch_from_compute_capability (get_arch_limits arch).compute_capability ≡ arch)
unfolding get_arch_limits lookup_row find_row same_arch gpu_arch_name arch_from_compute_capability
get_arch_limits_own GpuArch.unknown h = absurd (h refl)
get_arch_limits_own GpuArch.sm_70 h = (refl, refl, refl)
get_arch_limits_own _ h = (refl, refl, refl)

abbrev pub capability : GpuArch → ℕ
capability arch = (get_arch_limits arch).compute_capability

-- The least capability of the table above that of the architecture.
abbrev next_capability : GpuArch → ℕ
next_capability GpuArch.sm_70 = 75
next_capability GpuArch.sm_75 = 80
next_capability GpuArch.sm_80 = 86
next_capability GpuArch.sm_86 = 89
next_capability GpuArch.sm_89 = 90
next_capability _ = 2 ^ 32

chosen_range :
    (cc : ℕ) (chosen : GpuArch)
    → 70 ≤ cc
    → cc < 2 ^ 32
    → arch_from_compute_capability cc ≡ chosen
    → (chosen ≢ GpuArch.unknown) × (capability chosen ≤ cc) × (cc < next_capability chosen)
unfolding arch_from_compute_capability get_arch_limits lookup_row find_row same_arch
chosen_range cc GpuArch.sm_70 p q e = ground arith
chosen_range cc _ p q e = ground arith

next_is_next :
    (chosen other : GpuArch)
    → chosen ≢ GpuArch.unknown
    → capability other < next_capability chosen
    → capability other ≤ capability chosen
unfolding get_arch_limits lookup_row find_row same_arch
next_is_next GpuArch.sm_70 GpuArch.sm_70 k h = omega arith
next_is_next GpuArch.sm_70 _ k h = omega arith
next_is_next GpuArch.sm_75 GpuArch.sm_70 k h = omega arith
next_is_next GpuArch.sm_75 _ k h = omega arith
next_is_next GpuArch.sm_80 GpuArch.sm_70 k h = omega arith
next_is_next GpuArch.sm_80 _ k h = omega arith
next_is_next GpuArch.sm_86 GpuArch.sm_70 k h = omega arith
next_is_next GpuArch.sm_86 _ k h = omega arith
next_is_next GpuArch.sm_89 GpuArch.sm_70 k h = omega arith
next_is_next GpuArch.sm_89 _ k h = omega arith
next_is_next GpuArch.sm_90 GpuArch.sm_70 k h = omega arith
next_is_next GpuArch.sm_90 _ k h = omega arith
next_is_next GpuArch.unknown other k h = absurd (k refl)

-- A device of compute capability 70 or more is given the architecture of the greatest capability that it
-- has: one it supports, and no other that it supports is greater.
pub arch_from_compute_capability_best :
    (cc : ℕ) (other : GpuArch)
    → 70 ≤ cc
    → cc < 2 ^ 32
    → capability other ≤ cc
    → let chosen = arch_from_compute_capability cc in
      (chosen ≢ GpuArch.unknown) × (capability chosen ≤ cc) × (capability other ≤ capability chosen)
arch_from_compute_capability_best cc other p q k =
    let (known, has, below) = chosen_range cc (arch_from_compute_capability cc) p q refl in
    (known, has, next_is_next (arch_from_compute_capability cc) other known (omega arith))
