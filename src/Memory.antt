-- ===== src/Memory.antt =====
-- src/runtime/memory_plan.cpp and include/gem16/memory.h: the plan of the device memory arena.
--
-- Sizes are uint64_t, numbers below 2 ^ 64; every sum and product is written with its wrap-around.
-- `Checked` has the checked arithmetic, `Plan` the planner.
pub mod Checked
pub mod Plan
