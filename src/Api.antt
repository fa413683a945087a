-- ===== src/Api.antt =====
-- agent/api/grpc: the agent's service behind its gRPC server.
pub mod Endpoints
pub mod Server
pub mod Uploads
pub mod Results
mod Tests
