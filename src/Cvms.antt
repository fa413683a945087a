-- ===== src/Cvms.antt =====
-- agent/cvms/api/grpc: the agent's connection to the computation's server.
pub mod RunRequests
pub mod Manifests
pub mod Arrival
pub mod RunReq
pub mod Incoming
pub mod Execution
pub mod Storage
pub mod Outgoing
mod Tests
