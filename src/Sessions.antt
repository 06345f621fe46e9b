-- ===== src/Sessions.antt =====
-- packages/shared/src/sessions: page addresses in the form that the rest of the program compares, the
-- keys that name sessions, and accounts as groups of sessions.
pub mod UrlPath
pub mod SessionKey
pub mod Grouping
