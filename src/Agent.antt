-- ===== src/Agent.antt =====
-- agent/service.go and agent/computations.go: the service inside the enclave.
pub mod Types
pub mod State
pub mod Manifest
pub mod Inputs
pub mod Running
pub mod Legal
pub mod Invariant
pub mod AlgoSafety
pub mod DataSafety
pub mod LoopSafety
pub mod ManifestSafety
pub mod RunSafety
pub mod World
pub mod Properties
pub mod Behaviour
pub mod DataBehaviour
pub mod Stopping
pub mod Races
mod Tests
