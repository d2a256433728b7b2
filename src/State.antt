-- ===== src/State.antt =====
-- What a workspace remembers (crates/state): civil time, the keys of its files, and the state itself.
pub mod Time
pub mod Keys
pub mod Remember
pub mod Report
pub mod Resume
pub mod Runs
mod Tests
