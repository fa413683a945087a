-- ===== src/Algorithms.antt =====
-- agent/algorithm: the processes and containers that run a computation's algorithm.
pub mod Processes
pub mod Containers
pub mod Endings
mod Tests
