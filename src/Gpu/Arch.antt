-- ===== src/Gpu/Arch.antt =====
-- The table of architectures and their names (include/clunk/GPU/ArchLimits.h, src/GPU/ArchLimits.cpp).
-- `toupper` is the function of the C library, on codes of characters.
use Prim.Native.String.{String}
use clunk.Base.{ℕ, ◌*◌, Bool, true, false, ◌&&◌, ◌||◌, if◌then◌else◌, ◌==◌, leb, List, [], ◌∷◌}

pub data GpuArch : Type 0 where
  sm_70 sm_75 sm_80 sm_86 sm_89 sm_90 unknown : GpuArch

pub record ArchRow : Type 0 where
  pub arch : GpuArch
  pub name : String
  pub cc : ℕ
  pub ptx_major : ℕ
  pub ptx_minor : ℕ
  pub max_threads_per_sm : ℕ
  pub max_warps_per_sm : ℕ
  pub max_blocks_per_sm : ℕ
  pub warp_size : ℕ
  pub max_regs_per_thread : ℕ
  pub max_regs_per_sm : ℕ
  pub reg_granularity : ℕ
  pub reg_alloc_unit : ℕ
  pub smem_per_sm : ℕ
  pub smem_per_block : ℕ
  pub has_cp_async : Bool
  pub has_wgmma : Bool
  pub has_cluster : Bool
  pub has_tensor_cores : Bool

pub record ArchLimits : Type 0 where
  pub arch : GpuArch
  pub name : String
  pub compute_capability : ℕ
  pub ptx_isa_version_major : ℕ
  pub ptx_isa_version_minor : ℕ
  pub max_threads_per_sm : ℕ
  pub max_warps_per_sm : ℕ
  pub max_blocks_per_sm : ℕ
  pub warp_size : ℕ
  pub max_registers_per_thread : ℕ
  pub max_registers_per_sm : ℕ
  pub register_alloc_granularity : ℕ
  pub register_alloc_unit : ℕ
  pub max_shared_memory_per_sm : ℕ
  pub max_shared_memory_per_block : ℕ
  pub has_cp_async : Bool
  pub has_wgmma : Bool
  pub has_cluster : Bool
  pub has_tensor_cores : Bool

abbrev kb : ℕ
kb = 1024

abbrev sm_70_row : ArchRow
sm_70_row = record {
  arch = sm_70;
  name = "sm_70";
  cc = 70;
  ptx_major = 6;
  ptx_minor = 3;
  max_threads_per_sm = 2048;
  max_warps_per_sm = 64;
  max_blocks_per_sm = 32;
  warp_size = 32;
  max_regs_per_thread = 255;
  max_regs_per_sm = 65536;
  reg_granularity = 4;
  reg_alloc_unit = 256;
  smem_per_sm = 96 * kb;
  smem_per_block = 96 * kb;
  has_cp_async = false;
  has_wgmma = false;
  has_cluster = false;
  has_tensor_cores = true;
}

abbrev sm_75_row : ArchRow
sm_75_row = record {
  arch = sm_75;
  name = "sm_75";
  cc = 75;
  ptx_major = 6;
  ptx_minor = 4;
  max_threads_per_sm = 1024;
  max_warps_per_sm = 32;
  max_blocks_per_sm = 16;
  warp_size = 32;
  max_regs_per_thread = 255;
  max_regs_per_sm = 65536;
  reg_granularity = 2;
  reg_alloc_unit = 256;
  smem_per_sm = 64 * kb;
  smem_per_block = 64 * kb;
  has_cp_async = false;
  has_wgmma = false;
  has_cluster = false;
  has_tensor_cores = true;
}

abbrev sm_80_row : ArchRow
sm_80_row = record {
  arch = sm_80;
  name = "sm_80";
  cc = 80;
  ptx_major = 7;
  ptx_minor = 0;
  max_threads_per_sm = 2048;
  max_warps_per_sm = 64;
  max_blocks_per_sm = 32;
  warp_size = 32;
  max_regs_per_thread = 255;
  max_regs_per_sm = 65536;
  reg_granularity = 4;
  reg_alloc_unit = 256;
  smem_per_sm = 164 * kb;
  smem_per_block = 164 * kb;
  has_cp_async = true;
  has_wgmma = false;
  has_cluster = false;
  has_tensor_cores = true;
}

abbrev sm_86_row : ArchRow
sm_86_row = record {
  arch = sm_86;
  name = "sm_86";
  cc = 86;
  ptx_major = 7;
  ptx_minor = 1;
  max_threads_per_sm = 1536;
  max_warps_per_sm = 48;
  max_blocks_per_sm = 16;
  warp_size = 32;
  max_regs_per_thread = 255;
  max_regs_per_sm = 65536;
  reg_granularity = 4;
  reg_alloc_unit = 256;
  smem_per_sm = 100 * kb;
  smem_per_block = 99 * kb;
  has_cp_async = true;
  has_wgmma = false;
  has_cluster = false;
  has_tensor_cores = true;
}

abbrev sm_89_row : ArchRow
sm_89_row = record {
  arch = sm_89;
  name = "sm_89";
  cc = 89;
  ptx_major = 7;
  ptx_minor = 4;
  max_threads_per_sm = 1536;
  max_warps_per_sm = 48;
  max_blocks_per_sm = 24;
  warp_size = 32;
  max_regs_per_thread = 255;
  max_regs_per_sm = 65536;
  reg_granularity = 2;
  reg_alloc_unit = 256;
  smem_per_sm = 228 * kb;
  smem_per_block = 227 * kb;
  has_cp_async = true;
  has_wgmma = false;
  has_cluster = false;
  has_tensor_cores = true;
}

abbrev sm_90_row : ArchRow
sm_90_row = record {
  arch = sm_90;
  name = "sm_90";
  cc = 90;
  ptx_major = 8;
  ptx_minor = 0;
  max_threads_per_sm = 2048;
  max_warps_per_sm = 64;
  max_blocks_per_sm = 32;
  warp_size = 32;
  max_regs_per_thread = 255;
  max_regs_per_sm = 65536;
  reg_granularity = 4;
  reg_alloc_unit = 256;
  smem_per_sm = 227 * kb;
  smem_per_block = 227 * kb;
  has_cp_async = true;
  has_wgmma = true;
  has_cluster = true;
  has_tensor_cores = true;
}

abbrev pub rows : List ArchRow
rows = sm_70_row ∷ sm_75_row ∷ sm_80_row ∷ sm_86_row ∷ sm_89_row ∷ sm_90_row ∷ []

unfoldable pub same_arch : GpuArch → GpuArch → Bool
same_arch sm_70 sm_70 = true
same_arch sm_75 sm_75 = true
same_arch sm_80 sm_80 = true
same_arch sm_86 sm_86 = true
same_arch sm_89 sm_89 = true
same_arch sm_90 sm_90 = true
same_arch unknown unknown = true
same_arch _ _ = false

-- The first row of the architecture, else the fallback `rows[2]`.
unfoldable pub find_row : GpuArch → List ArchRow → ArchRow
find_row arch [] = sm_80_row
find_row arch (r ∷ rest) = if same_arch r.arch arch then r else find_row arch rest

unfoldable pub lookup_row : GpuArch → ArchRow
lookup_row arch = find_row arch rows

unfoldable pub get_arch_limits : GpuArch → ArchLimits
unfolding lookup_row find_row same_arch
get_arch_limits arch =
    let r = lookup_row arch in
    record {
      arch = r.arch;
      name = r.name;
      compute_capability = r.cc;
      ptx_isa_version_major = r.ptx_major;
      ptx_isa_version_minor = r.ptx_minor;
      max_threads_per_sm = r.max_threads_per_sm;
      max_warps_per_sm = r.max_warps_per_sm;
      max_blocks_per_sm = r.max_blocks_per_sm;
      warp_size = r.warp_size;
      max_registers_per_thread = r.max_regs_per_thread;
      max_registers_per_sm = r.max_regs_per_sm;
      register_alloc_granularity = r.reg_granularity;
      register_alloc_unit = r.reg_alloc_unit;
      max_shared_memory_per_sm = r.smem_per_sm;
      max_shared_memory_per_block = r.smem_per_block;
      has_cp_async = r.has_cp_async;
      has_wgmma = r.has_wgmma;
      has_cluster = r.has_cluster;
      has_tensor_cores = r.has_tensor_cores;
    }

module _ (toupper : ℕ → ℕ) where
  -- The name without `-` and `_`, in upper case.
  unfoldable pub normalised : List ℕ → List ℕ
  normalised [] = []
  normalised (c ∷ rest) =
      if c == b'-' || c == b'_' then normalised rest else toupper c ∷ normalised rest

  -- A leading "SM" is dropped.
  unfoldable pub without_prefix : List ℕ → List ℕ
  without_prefix (a ∷ b ∷ rest) = if a == b'S' && b == b'M' then rest else a ∷ b ∷ rest
  without_prefix s = s

  unfoldable pub arch_of_digits : List ℕ → GpuArch
  arch_of_digits (a ∷ b ∷ []) =
      if a == b'7' && b == b'0'
      then sm_70
      else if a == b'7' && b == b'5'
      then sm_75
      else if a == b'8' && b == b'0'
      then sm_80
      else if a == b'8' && b == b'6'
      then sm_86
      else if a == b'8' && b == b'9'
      then sm_89
      else if a == b'9' && b == b'0'
      then sm_90
      else unknown
  arch_of_digits _ = unknown

  unfoldable pub parse_gpu_arch : List ℕ → GpuArch
  unfolding normalised without_prefix arch_of_digits
  parse_gpu_arch name = arch_of_digits (without_prefix (normalised name))

unfoldable pub gpu_arch_name : GpuArch → String
gpu_arch_name sm_70 = "sm_70"
gpu_arch_name sm_75 = "sm_75"
gpu_arch_name sm_80 = "sm_80"
gpu_arch_name sm_86 = "sm_86"
gpu_arch_name sm_89 = "sm_89"
gpu_arch_name sm_90 = "sm_90"
gpu_arch_name unknown = "unknown"

unfoldable pub arch_from_compute_capability : ℕ → GpuArch
arch_from_compute_capability cc =
    if cc == 70
    then sm_70
    else if cc == 75
    then sm_75
    else if cc == 80
    then sm_80
    else if cc == 86
    then sm_86
    else if cc == 89
    then sm_89
    else if cc == 90
    then sm_90
    else if leb 90 cc
    then sm_90
    else if leb 89 cc
    then sm_89
    else if leb 86 cc
    then sm_86
    else if leb 80 cc
    then sm_80
    else if leb 75 cc
    then sm_75
    else if leb 70 cc
    then sm_70
    else unknown
