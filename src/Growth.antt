-- ===== src/Growth.antt =====
-- packages/core/src/growth: what a surface is worth, and what the business context may hold.
pub mod Worth
pub mod Facts
pub mod Proposable
pub mod Context
pub mod Derive
pub mod FactAdmission
