-- ===== src/Interpreter.antt =====
-- The reference interpreter of integer functions (src/Evaluator/Interpreter.cpp).
pub mod Values
pub mod Execute
pub mod Walk
pub mod Casts
pub mod Binary
pub mod Bound
pub mod Compare
pub mod Memory
pub mod Shifts
