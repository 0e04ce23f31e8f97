-- ===== src/Runner.antt =====
-- internal/runner: the registry of runners and the choice of one for an attempt.
pub mod Member
pub mod Schedule
pub mod Order
pub mod Ratio
pub mod Choice
pub mod Placement
pub mod Spec
pub mod Interfaces
pub mod Tests
pub mod SpecTests
