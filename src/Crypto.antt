-- ===== src/Crypto.antt =====
-- packages/shared/src/crypto: credentials at rest.
pub mod Base64Url
pub mod SecretBox
