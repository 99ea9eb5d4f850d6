-- ===== src/Scheduler.antt =====
-- The preemptive round-robin scheduler, src/scheduler/mod.rs and src/scheduler/context.rs.
pub mod Tests
pub mod Queue
pub mod State
pub mod Core
pub mod Invariant
pub mod Fairness
pub mod Pids
pub mod Settled
pub mod Steps
pub mod Leaks
pub mod Files
pub mod Context
pub mod System
