-- ===== src/PowersOfTwo.antt =====
-- The powers-of-two analysis (include/clunk/Analysis/PowersOfTwo.h, src/Analysis/PowersOfTwo.cpp).
pub mod Count
pub mod Classify
pub mod Sound
