-- ===== src/Environment.antt =====
-- src/01_environment: the programs of the first exercises.
pub mod Daemon
pub mod Fibonacci
pub mod MemLeaks
pub mod SystemCall
