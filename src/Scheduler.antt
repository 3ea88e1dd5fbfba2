-- ===== src/Scheduler.antt =====
-- backend/internal/scheduler/scheduler.go
pub mod State
pub mod Tasks
pub mod Active
pub mod Ending
pub mod Cancelling
pub mod Handlers
pub mod Invariant
pub mod Steps
pub mod Quiet
pub mod Pausing
pub mod Purging
pub mod Surplus
pub mod Clearing
