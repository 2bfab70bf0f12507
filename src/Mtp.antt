-- ===== src/Mtp.antt =====
-- src/cuda/mtp: the host side of multi-token prediction.
pub mod Scheduler
