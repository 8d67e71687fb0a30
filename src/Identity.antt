-- ===== src/Identity.antt =====
-- internal/identity/identity.go: IDs, fingerprints, and the identity file.
pub mod Hex
pub mod Uuid
pub mod Certificate
pub mod Parse
pub mod Create
