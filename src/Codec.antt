-- ===== src/Codec.antt =====
-- src/protocol/codec.cpp and proto/pipeforge/v1/protocol.proto: payloads and their messages.
pub mod Wire
pub mod Limits
pub mod Fields
pub mod Bodies
pub mod Envelope
pub mod Roundtrip
pub mod Written
pub mod Exchange
pub mod Bounds
