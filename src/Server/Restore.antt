-- ===== src/Server/Restore.antt =====
-- internal/server/restore.go: the files that go back to the client.
pub mod Send
pub mod Worker
mod Tests
