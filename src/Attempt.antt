-- ===== src/Attempt.antt =====
-- internal/attempt: the service that runs attempts.
pub mod Tracker
pub mod Idle
pub mod Stale
pub mod Calm
pub mod Ended
pub mod Outcome
pub mod View
pub mod World
pub mod Service
pub mod Ending
pub mod Starting
pub mod Provision
pub mod Leftover
pub mod Promotion
pub mod Reserve
pub mod Submit
pub mod Verdict
pub mod Bus
pub mod Deliver
pub mod Pruning
pub mod Pruned
pub mod Retention
pub mod DryRun
pub mod Tests
pub mod RunTests
