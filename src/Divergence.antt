-- ===== src/Divergence.antt =====
-- packages/core/src/divergence: where sessions that failed leave those that succeeded.
pub mod Compute
pub mod Cuts
