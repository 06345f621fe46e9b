-- ===== src/Rules.antt =====
-- packages/core/src/rules: the finding classes, the detectors' names and the versioned thresholds;
-- the kinds of evidence signal, from evidence/signals.ts, which the rule sets name.
use growthmind.Prelude.{ℕ, Text, text, Option, some, none, List, [], ◌∷◌, ◌==◌, if◌then◌else◌}

pub data FindingClass : Type 0 where
  broken confusing changed_mind instrumentation : FindingClass

pub data DetectorProposedClass : Type 0 where
  proposes_broken proposes_confusing proposes_instrumentation : DetectorProposedClass

-- A detector's proposed class is one of the finding classes.
abbrev pub class_of : DetectorProposedClass → FindingClass
class_of proposes_broken = broken
class_of proposes_confusing = confusing
class_of proposes_instrumentation = instrumentation

pub data DetectorName : Type 0 where
  funnel_dropoff error_event observed_struggle : DetectorName

pub data EvidenceSignalKind : Type 0 where
  failure_correlated failure_uncorrelated struggle clean_exit instrumentation_rate_drop :
      EvidenceSignalKind

pub EvidenceSignalKind-discrete : Discrete EvidenceSignalKind
EvidenceSignalKind-discrete = hlevel

pub FindingClass-discrete : Discrete FindingClass
FindingClass-discrete = hlevel

pub record ThresholdRuleSet : Type 0 where
  pub version : ℕ
  pub exception_event_name : Text
  pub passive_event_names : List Text
  pub vendor_event_prefix : Text
  pub user_initiated_vendor_events : List Text
  pub error_correlation_window_ms : ℕ
  pub error_min_affected_sessions : ℕ
  pub funnel_min_sessions_at_origin : ℕ
  pub funnel_min_dropoff_sessions : ℕ
  pub funnel_dropoff_rate_threshold_percent : ℕ
  pub struggle_repeated_attempt_min : ℕ
  pub struggle_min_struggling_sessions : ℕ
  pub struggle_rage_click_min : ℕ
  pub struggle_dead_click_min : ℕ
  pub struggle_field_abandoned_min : ℕ
  pub struggle_field_refocus_min : ℕ
  pub struggle_scroll_back_min : ℕ
  pub struggle_observed_min_sessions : ℕ
  pub instrumentation_drop_ratio_percent : ℕ
  pub instrumentation_min_expected : ℕ
  pub broken_proof_signals : List EvidenceSignalKind
  pub confusing_proof_signals : List EvidenceSignalKind
  pub changed_mind_proof_signals : List EvidenceSignalKind
  pub instrumentation_proof_signals : List EvidenceSignalKind

abbrev pub broken_proof_signals_v1 : List EvidenceSignalKind
broken_proof_signals_v1 = EvidenceSignalKind.failure_correlated ∷ []

abbrev pub confusing_proof_signals_v1 : List EvidenceSignalKind
confusing_proof_signals_v1 = EvidenceSignalKind.struggle ∷ []

abbrev pub changed_mind_proof_signals_v1 : List EvidenceSignalKind
changed_mind_proof_signals_v1 = EvidenceSignalKind.clean_exit ∷ []

abbrev pub instrumentation_proof_signals_v1 : List EvidenceSignalKind
instrumentation_proof_signals_v1 = EvidenceSignalKind.instrumentation_rate_drop ∷ []

abbrev pub rule_set_v1 : ThresholdRuleSet
rule_set_v1 = record {
  version = 1;
  exception_event_name = text "$exception";
  passive_event_names =
      text "$pageview" ∷ text "$pageleave" ∷ text "$identify" ∷ text "$web_vitals" ∷ [];
  vendor_event_prefix = text "$";
  user_initiated_vendor_events =
      text "$autocapture" ∷ text "$rageclick" ∷ text "$dead_click" ∷ text "$copy_autocapture" ∷ [];
  error_correlation_window_ms = 30_000;
  error_min_affected_sessions = 3;
  funnel_min_sessions_at_origin = 20;
  funnel_min_dropoff_sessions = 5;
  funnel_dropoff_rate_threshold_percent = 40;
  struggle_repeated_attempt_min = 3;
  struggle_min_struggling_sessions = 3;
  struggle_rage_click_min = 4;
  struggle_dead_click_min = 2;
  struggle_field_abandoned_min = 2;
  struggle_field_refocus_min = 3;
  struggle_scroll_back_min = 3;
  struggle_observed_min_sessions = 5;
  instrumentation_drop_ratio_percent = 20;
  instrumentation_min_expected = 50;
  broken_proof_signals = broken_proof_signals_v1;
  confusing_proof_signals = confusing_proof_signals_v1;
  changed_mind_proof_signals = changed_mind_proof_signals_v1;
  instrumentation_proof_signals = instrumentation_proof_signals_v1;
}

abbrev pub rule_set_v2 : ThresholdRuleSet
rule_set_v2 = record rule_set_v1 { version = 2 }

-- `THRESHOLD_RULE_SETS.get(version)`
pub threshold_rule_set : ℕ → Option ThresholdRuleSet
threshold_rule_set v =
    if v == 1 then some rule_set_v1 else if v == 2 then some rule_set_v2 else none

abbrev pub current_threshold_rule_set : ThresholdRuleSet
current_threshold_rule_set = rule_set_v2
