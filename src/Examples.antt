-- ===== src/Examples.antt =====
-- Runs of the model at concrete inputs: a session of src/domain/domain.cpp with the classes of
-- src/domain/builtins.cpp, frames, envelopes and endpoints.
mod Sample
mod Sessions
mod Builtins
mod Streams
mod Envelopes
mod Clients
mod Pipes
mod Servers
mod Recordings
mod Commands
