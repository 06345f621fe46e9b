-- ===== src/Detect.antt =====
-- packages/core/src/detect: the detectors, which read a corpus of sessions and propose candidates.
pub mod Types
pub mod Order
pub mod Analysed
pub mod Funnel
pub mod Corpus
pub mod ErrorEvent
