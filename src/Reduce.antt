-- ===== src/Reduce.antt =====
-- The strength reduction by powers of two (src/IR/StrengthReduce.cpp).
pub mod Urem
pub mod Same
