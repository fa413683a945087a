-- ===== src/Attestation.antt =====
-- pkg/attestation, and the command line's changes of an attestation policy.
pub mod Hex
pub mod Pcrs
pub mod Extend
pub mod Policy
pub mod Changes
pub mod Flags
pub mod Checked
pub mod Reports
pub mod Quotes
pub mod Binding
pub mod Azure
pub mod Tdx
mod Tests
