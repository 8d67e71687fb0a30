-- ===== src/Pairing.antt =====
-- internal/pairing: the store of peers, the pairing code, and device names.
pub mod Types
pub mod Disk
pub mod Name
pub mod Store
pub mod Mirror
pub mod Valid
pub mod Changes
pub mod Load
pub mod Runs
pub mod Code
