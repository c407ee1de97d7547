-- ===== src/Ir.antt =====
-- The intermediate representation (include/clunk/IR, src/IR).
pub mod Opcode
pub mod Predicate
pub mod Names
pub mod Function
pub mod Blocks
pub mod Index
pub mod Clone
pub mod Addresses
pub mod Named
pub mod Removed
pub mod Printer
pub mod Current
