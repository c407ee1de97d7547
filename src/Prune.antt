-- ===== src/Prune.antt =====
-- The passes that prune a function (src/IR/DataflowPrune.cpp).
pub mod Dead
pub mod Sweep
pub mod Liveness
pub mod Eliminate
pub mod Unreachable
pub mod Names
pub mod Reachable
pub mod Folds
pub mod Masked
pub mod Cse
pub mod Rounds
pub mod Ends
pub mod Iterations
