-- ===== src/Multiprocessing.antt =====
-- src/05_multiprocessing_and_schedulers: the exercises on processes.
pub mod Messages
