-- ===== src/ReplayFilters.antt =====
-- packages/core/src/replay-filters: which recordings a screen lists, and the way out of an empty list.
pub mod Select
pub mod WayOut
