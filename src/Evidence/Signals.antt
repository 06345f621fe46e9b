-- ===== src/Evidence/Signals.antt =====
-- packages/core/src/evidence/signals.ts: what a detector can hand over as evidence.
use growthmind.Prelude.{ℕ, Text, Bool, ◌&&◌, not, is_empty}
use growthmind.Counts.{MeasuredCount}
use growthmind.Rules.{EvidenceSignalKind}

pub data StruggleSubkind : Type 0 where
  repeated_attempt backtrack rage_click dead_click field_abandoned field_refocus scroll_back :
      StruggleSubkind

pub data EvidenceSignal : Type 0 where
  failure_correlated :
      (event_name : Text) (occurred_at : ℕ) (preceding_action_name : Text)
      (correlation_window_ms : ℕ) (correlated_sessions : MeasuredCount)
      → EvidenceSignal
  failure_uncorrelated : (event_name : Text) (occurred_at : ℕ) → EvidenceSignal
  struggle :
      (subkind : StruggleSubkind) (surface : Text) (attempts : ℕ)
      (struggling_sessions : MeasuredCount)
      → EvidenceSignal
  clean_exit : (surface : Text) → EvidenceSignal
  instrumentation_rate_drop :
      (event_name : Text) (observed expected : MeasuredCount) → EvidenceSignal

abbrev pub kind_of : EvidenceSignal → EvidenceSignalKind
kind_of (failure_correlated _ _ _ _ _) = EvidenceSignalKind.failure_correlated
kind_of (failure_uncorrelated _ _) = EvidenceSignalKind.failure_uncorrelated
kind_of (struggle _ _ _ _) = EvidenceSignalKind.struggle
kind_of (clean_exit _) = EvidenceSignalKind.clean_exit
kind_of (instrumentation_rate_drop _ _ _) = EvidenceSignalKind.instrumentation_rate_drop

-- What `evidenceSignalSchema` asks beyond the types: no name and no surface is empty. That each
-- count is one which `measuredCount` built is a matter of the type here.
unfoldable pub signal_parses : EvidenceSignal → Bool
signal_parses (failure_correlated name _ action _ _) = not (is_empty name) && not (is_empty action)
signal_parses (failure_uncorrelated name _) = not (is_empty name)
signal_parses (struggle _ surface _ _) = not (is_empty surface)
signal_parses (clean_exit surface) = not (is_empty surface)
signal_parses (instrumentation_rate_drop name _ _) = not (is_empty name)
