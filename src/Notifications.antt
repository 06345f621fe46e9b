-- ===== src/Notifications.antt =====
-- packages/core/src/notifications: what is told of a notification that went out.
pub mod Receipt
pub mod Digest
