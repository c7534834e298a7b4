-- ===== src/Crypto.antt =====
-- backend/static/js/lib/crypto.js
pub mod Gf
pub mod Shamir
pub mod Merkle
pub mod Signing
pub mod Ecies
