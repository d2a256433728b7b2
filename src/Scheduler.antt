-- ===== src/Scheduler.antt =====
-- The scheduler (crates/scheduler): when each schedule is due, and what one pass of the loop does.
pub mod Every
pub mod Watch
pub mod Cron
pub mod File
pub mod Run
mod Tests
