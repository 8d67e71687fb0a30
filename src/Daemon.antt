-- ===== src/Daemon.antt =====
-- internal/daemon/daemon.go: the service.
pub mod Rate
pub mod Conns
pub mod Status
pub mod Slot
pub mod Clipboard
pub mod Handshake
pub mod Pair
pub mod Control
pub mod Connect
pub mod Accept
pub mod System
pub mod Start
pub mod Run
