-- ===== src/Temperature.antt =====
-- internal/temperature: the abuse score of an address and a site, and the challenge ranges that
-- follow from it.
pub mod Network
pub mod Reputation
pub mod Store
pub mod Scorer
