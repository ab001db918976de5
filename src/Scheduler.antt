-- ===== src/Scheduler.antt =====
-- scheduler_state.go and scheduler.go: the quota snapshots, the queue cooldowns and the session
-- bindings of the scheduler, and the choice of an account by them.
pub mod State
pub mod Select
pub mod Pick
pub mod Notes
pub mod Chosen
pub mod Session
pub mod Between
pub mod Exclusion
pub mod Priority
