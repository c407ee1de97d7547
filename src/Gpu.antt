-- ===== src/Gpu.antt =====
-- The GPU backend's model of a target (include/clunk/GPU, src/GPU).
pub mod Arch
pub mod Occupancy
pub mod Fits
pub mod Best
pub mod Targets
pub mod Liveness
pub mod Live
pub mod Recorded
