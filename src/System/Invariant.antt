-- ===== src/System/Invariant.antt =====
-- The counters of THREAD.C agree with its queues: true at the start, kept by every call, by the
-- timer and by the scheduler.
pub mod Defs
pub mod Ready
pub mod Conditions
pub mod Reachable
pub mod Semaphores
pub mod Start
