-- ===== src/Evidence.antt =====
-- packages/core/src/evidence: the signals, the proof predicates and the gate that grades a claim.
pub mod Signals
pub mod Trace
pub mod Predicates
pub mod Gate
pub mod ElementKey
pub mod StruggleTally
pub mod ObservedStruggle
