-- ===== src/Server.antt =====
-- internal/server: the cycle of the server, and the connection that it takes the client's list from.
pub mod Control
pub mod Cycle
pub mod Restore
mod Tests
