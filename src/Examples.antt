-- ===== src/Examples.antt =====
-- Concrete inputs that the theorems are applied at.
pub mod Facts
pub mod Analysis
pub mod Names
pub mod Launches
pub mod Runs
pub mod Passes
pub mod Caches
pub mod Rewrites
