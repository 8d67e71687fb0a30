-- ===== src/Tests.antt =====
-- Concrete runs: small stores, certificates, messages and connections, and the theorems at them.
mod Samples
mod Stores
mod Files
mod Identities
mod Links
mod Messages
mod Connections
mod Commands
mod Channels
mod Settings
mod Services
mod Systems
mod Sessions
mod Travels
