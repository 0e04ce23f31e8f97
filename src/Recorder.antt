-- ===== src/Recorder.antt =====
-- internal/recorder/recorder.go: the recorder, which copies the command logs of the nodes.
pub mod Lines
pub mod Pull
pub mod Split
pub mod Cut
pub mod Exact
pub mod Progress
pub mod Tests
