-- ===== src/Api.antt =====
-- pkg/api/types.go: the trust metadata that a token is bound to.
pub mod Metadata
