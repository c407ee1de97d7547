-- ===== src/KnownBits.antt =====
-- The known-bits analysis (include/clunk/Analysis/KnownBits.h, src/Analysis/KnownBits.cpp).
pub mod Lattice
pub mod Transfer
pub mod Analysis
pub mod Masks
pub mod Exact
pub mod Extended
pub mod LowZeros
pub mod Arithmetic
pub mod Bitwise
pub mod Shifts
pub mod Signs
pub mod Extends
pub mod Casts
pub mod Compare
pub mod Program
pub mod Operands
pub mod Rules
pub mod Width
pub mod SignedBit
pub mod Soundness
pub mod Environment
pub mod Constant
