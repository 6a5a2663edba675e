-- ===== src/Scheduler.antt =====
-- The task scheduler (kernel/src/scheduler): priorities, tasks, the run queue and the scheduler
-- that owns both.
pub mod Priority
pub mod Task
pub mod RunQueue
pub mod Global
