-- ===== src/Optimization.antt =====
-- src/06_optimization: the programs that toggle a pin, and two whose loops were to be made faster.
pub mod Toggle
pub mod Array
pub mod Clock
