-- ===== src/Onboarding.antt =====
-- packages/shared/src/onboarding: the first run of a new customer.
pub mod Stage
pub mod Steps
pub mod Setup
