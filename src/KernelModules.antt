-- ===== src/KernelModules.antt =====
-- src/02_modules: the kernel modules with state of their own.
pub mod Elements
pub mod Interrupts
pub mod Registers
pub mod Threads
mod Tests
