-- ===== src/Evaluator.antt =====
-- The evaluator's cache (include/clunk/Evaluator/EvaluationCache.h).
pub mod Cache
pub mod Recency
pub mod Linked
pub mod Evicted
pub mod Refines
pub mod Calls
