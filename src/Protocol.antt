-- ===== src/Protocol.antt =====
-- internal/protocol: message types and error codes, frames, payload codecs, typed messages, paths.
pub mod Msg
pub mod Err
pub mod Scanner
pub mod Frame
pub mod Paths
pub mod Messages
pub mod Conn
mod Tests
