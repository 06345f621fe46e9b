-- ===== src/Shipped.antt =====
-- packages/core/src/shipped: who reached a page after a change to it, and what may be said of them.
pub mod PageMatch
pub mod Eligibility
pub mod Corpus
