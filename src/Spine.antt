-- ===== src/Spine.antt =====
-- packages/core/src/spine: the walk of a session over pages, and the steps that sessions share.
pub mod Walk
pub mod Steps
