-- ===== src/Serialise.antt =====
-- packages/core/src/serialise: the text form that identities are derived from.
pub mod CanonicalJson
