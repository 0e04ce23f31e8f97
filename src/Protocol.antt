-- ===== src/Protocol.antt =====
-- internal/runnerproto: what the server and a runner send to each other.
pub mod Frame
pub mod Payload
pub mod Failure
pub mod Tests
