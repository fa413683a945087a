-- ===== src/Tls.antt =====
-- pkg/atls, pkg/clients and pkg/server: TLS whose certificates carry an attestation of the server.
pub mod Platforms
pub mod Provider
pub mod Verifier
pub mod Clients
pub mod Plaintext
pub mod Handshake
pub mod Wiring
pub mod Connected
pub mod Servers
pub mod Starting
pub mod Lifecycle
mod Tests
