-- ===== src/Stream.antt =====
-- agent/api/grpc/server.go: files in chunks, to and from the agent, and the lengths of nonces.
pub mod Sending
pub mod Receiving
pub mod Progress
pub mod Drawing
pub mod Upload
pub mod RoundTrip
pub mod Download
pub mod Measurements
mod Tests
