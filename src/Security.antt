-- ===== src/Security.antt =====
-- pkg/security: authentication, encryption and TLS.
pub mod Base64
pub mod Text
pub mod Auth
pub mod Hex
pub mod Encryption
pub mod Tls
