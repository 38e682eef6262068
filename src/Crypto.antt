-- ===== src/Crypto.antt =====
-- The cryptography of backend/src/common/utils/crypto-utils.ts: hexadecimal texts, modular powers and
-- inverses, and the RSA blind signatures that stand on them.
pub mod Hex
mod Modular
pub mod Power
pub mod Euclid
pub mod Blind
pub mod Client
pub mod Tests
