-- ===== src/Client.antt =====
-- internal/runnerclient: the runner's side of its connection to the control plane.
pub mod Session
pub mod Pumps
pub mod Dispatch
pub mod Work
pub mod Entries
pub mod Ledger
pub mod Kept
pub mod Calls
pub mod Steps
pub mod Log
pub mod Quiet
pub mod Answers
pub mod Stages
pub mod Order
pub mod Keeper
pub mod Tests
