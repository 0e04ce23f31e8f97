-- ===== src/Server.antt =====
-- internal/runnerserver: the server's side of the connections to the runners.
pub mod Outbox
pub mod Fifo
pub mod Stream
pub mod Conn
pub mod Keeps
pub mod Replies
pub mod Calls
pub mod Hub
pub mod Presence
pub mod Current
pub mod Handshake
pub mod Tests
