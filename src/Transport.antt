-- ===== src/Transport.antt =====
-- src/transport/windows: the pipe, its streams and the server on top of them.
pub mod Native
pub mod Stream
pub mod Server
