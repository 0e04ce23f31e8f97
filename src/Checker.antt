-- ===== src/Checker.antt =====
-- internal/checker/checker.go: the checker, which runs the scripts of the checkpoints.
pub mod Sweep
pub mod Loops
pub mod Single
pub mod First
pub mod Tests
