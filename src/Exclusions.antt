-- ===== src/Exclusions.antt =====
-- packages/shared/src/exclusions: which sessions are set aside when they are stored.
pub mod FreeMail
pub mod Automation
pub mod InternalDomain
pub mod Classify
