-- ===== src/Cause.antt =====
-- packages/core/src/cause: what a model says about the cause of a finding, held to the evidence.
pub mod CitationGate
pub mod Guard
