-- ===== src/Challenge.antt =====
-- internal/challenge: the parameters of a challenge, its parts, and their verification.
pub mod Error
pub mod Probes
pub mod Params
pub mod HashCash
pub mod Argon2
pub mod Composite
