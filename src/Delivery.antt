-- ===== src/Delivery.antt =====
-- packages/core/src/delivery: when a finding is delivered, and which.
pub mod Schedule
pub mod Mrkdwn
pub mod ResidualPii
