-- ===== src/System.antt =====
-- ThreadSystemCode/ThreadLibrary/THREAD.C and THREADS.H: the thread system.
pub mod State
pub mod Timer
pub mod Scheduler
pub mod Fork
pub mod Join
pub mod Lock
pub mod Condition
pub mod Semaphore
pub mod Machine
pub mod Priority
pub mod Switch
pub mod Preempt
pub mod Wake
pub mod Lasting
pub mod Joining
pub mod Failures
pub mod Joiners
pub mod Blocked
pub mod Invariant
pub mod Start
pub mod Handover
pub mod Startup
pub mod Exclusion
pub mod Turns
pub mod Hang
pub mod Crew
