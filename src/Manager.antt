-- ===== src/Manager.antt =====
-- manager/ and pkg/manager/: the service on the host that starts, lists and removes machines.
pub mod Persistence
pub mod Qemu
pub mod Devices
pub mod Refinement
pub mod VmState
pub mod Ttl
pub mod Service
pub mod Ports
pub mod Capacity
pub mod Removal
mod Tests
