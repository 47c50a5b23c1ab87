-- ===== src/Rsa.antt =====
-- internal/rsapbssa: RSA partially blind signatures.
pub mod Arith
pub mod Error
pub mod Pss
pub mod Generate
pub mod Keys
pub mod Protocol
