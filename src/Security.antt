-- ===== src/Security.antt =====
-- src/security: base64, password hashes, tokens, roles and the authentication service.
pub mod Base64
pub mod Crypto
pub mod Access
pub mod Jwt
pub mod Auth
pub mod Password
