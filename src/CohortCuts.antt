-- ===== src/CohortCuts.antt =====
-- packages/shared/src/cohort-cuts: the browser and the device that a user agent names.
pub mod Classify
