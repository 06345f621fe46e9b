-- ===== src/Tenancy.antt =====
-- packages/shared/src/tenancy: whom a request acts for, and what it may do.
pub mod Context
pub mod Resolution
pub mod Roles
