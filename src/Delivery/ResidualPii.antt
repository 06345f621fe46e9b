-- ===== src/Delivery/ResidualPii.antt =====
-- packages/core/src/delivery/residual-pii.ts: the scan for personal data in free text.
pub mod Patterns
pub mod Scan
