-- ===== src/Task.antt =====
-- src/kernel/task: process identifiers, the context switch and the round-robin scheduler.
pub mod Pid
pub mod Process
pub mod Create
pub mod Shared
pub mod Scheduler
pub mod RoundRobin
