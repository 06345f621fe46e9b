-- ===== src/Replay.antt =====
-- packages/core/src/replay: what a recorded session did, as the detectors read it.
pub mod Types
pub mod DescribeValue
