-- ===== src/Transport.antt =====
-- internal/transport: the delay between two dials, and what a TLS connection must show.
pub mod Backoff
pub mod Tls
