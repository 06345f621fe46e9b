-- ===== src/Signatures.antt =====
-- The ledger of the findings' identities, of one organisation.
pub mod Ledger
pub mod Service
pub mod Identity
