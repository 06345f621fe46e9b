-- ===== src/Findings.antt =====
-- packages/core/src/findings: what a detector proposes becomes a candidate finding, gets an
-- identity, and is delivered or held back by what the ledger knows of that identity.
pub mod Suppression
pub mod EvidenceShape
pub mod Candidate
pub mod Assemble
