-- ===== src/Evidence/Predicates.antt =====
-- packages/core/src/evidence/predicates.ts: what proves each class, and how close to its limits.
pub mod Kinds
use growthmind.Prelude.{
  ℕ, ◌*◌, Text, text, Bool, true, false, ◌&&◌, ◌||◌, not, List, [], ◌∷◌, map, filter, any, all,
  is_empty, leb, ◌==◌, if◌then◌else◌, String, Option,
}
use growthmind.Doubles.{Doubles}
use growthmind.Counts.{MeasuredCount, Rate, rate, no_rate, rate_of, percent_scale}
use growthmind.Rules.{
  EvidenceSignalKind, FindingClass, broken, confusing, changed_mind, instrumentation,
  ThresholdRuleSet,
}
use growthmind.Evidence.Signals.{
  EvidenceSignal, failure_correlated, failure_uncorrelated, struggle, clean_exit,
  instrumentation_rate_drop, repeated_attempt, backtrack, rage_click, dead_click, field_abandoned,
  field_refocus, scroll_back, StruggleSubkind, kind_of,
}
use Kinds.{includes_kind, sorted_kind_set}

abbrev pub proof_predicate_version : ℕ
proof_predicate_version = 1

pub data InstrumentationDrop : Type 0 where
  below_ratio at_ratio above_ratio no_ratio : InstrumentationDrop

abbrev pub is_at_or_below_ratio : InstrumentationDrop → Bool
is_at_or_below_ratio below_ratio = true
is_at_or_below_ratio at_ratio = true
is_at_or_below_ratio above_ratio = false
is_at_or_below_ratio no_ratio = false

abbrev pub admitted_kinds_for : FindingClass → ThresholdRuleSet → List EvidenceSignalKind
admitted_kinds_for broken rules = rules.broken_proof_signals
admitted_kinds_for confusing rules = rules.confusing_proof_signals
admitted_kinds_for changed_mind rules = rules.changed_mind_proof_signals
admitted_kinds_for instrumentation rules = rules.instrumentation_proof_signals

unfoldable pub admissible_proof_kinds :
    List EvidenceSignal → FindingClass → ThresholdRuleSet → List EvidenceSignalKind
unfolding sorted_kind_set
admissible_proof_kinds signals final rules =
    sorted_kind_set (filter (includes_kind (admitted_kinds_for final rules)) (map kind_of signals))

-- `CHANGED_MIND_DISQUALIFYING_KINDS.has(kind)`
abbrev pub disqualifies_changed_mind : EvidenceSignalKind → Bool
disqualifies_changed_mind EvidenceSignalKind.failure_correlated = true
disqualifies_changed_mind EvidenceSignalKind.failure_uncorrelated = true
disqualifies_changed_mind EvidenceSignalKind.struggle = true
disqualifies_changed_mind _ = false

-- The attempts that a struggle of each subkind has to show; `backtrack` proves nothing at any.
unfoldable pub struggle_satisfied : StruggleSubkind → ℕ → MeasuredCount → ThresholdRuleSet → Bool
struggle_satisfied repeated_attempt attempts struggling rules =
    leb rules.struggle_repeated_attempt_min attempts
    && leb rules.struggle_min_struggling_sessions struggling.numerator
struggle_satisfied backtrack attempts struggling rules = false
struggle_satisfied rage_click attempts struggling rules =
    leb rules.struggle_rage_click_min attempts
    && leb rules.struggle_observed_min_sessions struggling.numerator
struggle_satisfied dead_click attempts struggling rules =
    leb rules.struggle_dead_click_min attempts
    && leb rules.struggle_observed_min_sessions struggling.numerator
struggle_satisfied field_abandoned attempts struggling rules =
    leb rules.struggle_field_abandoned_min attempts
    && leb rules.struggle_observed_min_sessions struggling.numerator
struggle_satisfied field_refocus attempts struggling rules =
    leb rules.struggle_field_refocus_min attempts
    && leb rules.struggle_observed_min_sessions struggling.numerator
struggle_satisfied scroll_back attempts struggling rules =
    leb rules.struggle_scroll_back_min attempts
    && leb rules.struggle_observed_min_sessions struggling.numerator

unfoldable pub struggle_at_boundary : StruggleSubkind → ℕ → MeasuredCount → ThresholdRuleSet → Bool
struggle_at_boundary repeated_attempt attempts struggling rules =
    attempts == rules.struggle_repeated_attempt_min
    || struggling.numerator == rules.struggle_min_struggling_sessions
struggle_at_boundary backtrack attempts struggling rules = false
struggle_at_boundary rage_click attempts struggling rules =
    attempts == rules.struggle_rage_click_min
    || struggling.numerator == rules.struggle_observed_min_sessions
struggle_at_boundary dead_click attempts struggling rules =
    attempts == rules.struggle_dead_click_min
    || struggling.numerator == rules.struggle_observed_min_sessions
struggle_at_boundary field_abandoned attempts struggling rules =
    attempts == rules.struggle_field_abandoned_min
    || struggling.numerator == rules.struggle_observed_min_sessions
struggle_at_boundary field_refocus attempts struggling rules =
    attempts == rules.struggle_field_refocus_min
    || struggling.numerator == rules.struggle_observed_min_sessions
struggle_at_boundary scroll_back attempts struggling rules =
    attempts == rules.struggle_scroll_back_min
    || struggling.numerator == rules.struggle_observed_min_sessions

pub data ConfidenceBasis : Type 0 where
  threshold_met at_threshold below_threshold : ConfidenceBasis

module _ (F : Doubles) where
  open F use {Double, of_ℕ, mul, div, eqb, lt}

  abbrev drop_of : Rate F → Rate F → ThresholdRuleSet → InstrumentationDrop
  drop_of (no_rate _) e rules = no_ratio
  drop_of (rate o) (no_rate _) rules = no_ratio
  drop_of (rate o) (rate e) rules =
      let ceiling : Double =
        div (mul (of_ℕ rules.instrumentation_drop_ratio_percent) e) (of_ℕ percent_scale) in
      if eqb o ceiling then at_ratio else if lt o ceiling then below_ratio else above_ratio

  unfoldable pub instrumentation_drop :
      MeasuredCount → MeasuredCount → ThresholdRuleSet → InstrumentationDrop
  unfolding rate_of
  instrumentation_drop observed expected rules =
      drop_of (rate_of F observed) (rate_of F expected) rules

  unfoldable pub magnitude_satisfied : EvidenceSignal → ThresholdRuleSet → Bool
  unfolding struggle_satisfied instrumentation_drop
  magnitude_satisfied (struggle subkind _ attempts struggling) rules =
      struggle_satisfied subkind attempts struggling rules
  magnitude_satisfied (instrumentation_rate_drop _ observed expected) rules =
      leb rules.instrumentation_min_expected expected.numerator
      && is_at_or_below_ratio (instrumentation_drop observed expected rules)
  magnitude_satisfied (failure_correlated _ _ _ _ correlated) rules =
      leb rules.error_min_affected_sessions correlated.numerator
  magnitude_satisfied (failure_uncorrelated _ _) rules = true
  magnitude_satisfied (clean_exit _) rules = true

  -- `admittedKinds.includes(signal.kind) && magnitudeSatisfied(signal, ruleSet)`
  unfoldable pub signal_proves : List EvidenceSignalKind → ThresholdRuleSet → EvidenceSignal → Bool
  signal_proves admitted rules signal =
      includes_kind admitted (kind_of signal) && magnitude_satisfied signal rules

  unfoldable pub any_signal_proves :
      List EvidenceSignal → List EvidenceSignalKind → ThresholdRuleSet → Bool
  any_signal_proves signals admitted rules = any signals (signal_proves admitted rules)

  unfoldable pub at_inclusive_boundary : EvidenceSignal → ThresholdRuleSet → Bool
  unfolding struggle_at_boundary instrumentation_drop
  at_inclusive_boundary (struggle subkind _ attempts struggling) rules =
      struggle_at_boundary subkind attempts struggling rules
  at_inclusive_boundary (failure_correlated _ _ _ _ correlated) rules =
      correlated.numerator == rules.error_min_affected_sessions
  at_inclusive_boundary (instrumentation_rate_drop _ observed expected) rules =
      elim (instrumentation_drop observed expected rules) [ at_ratio ↦ true | _ ↦ false ]
      || expected.numerator == rules.instrumentation_min_expected
  at_inclusive_boundary (failure_uncorrelated _ _) rules = false
  at_inclusive_boundary (clean_exit _) rules = false

  unfoldable pub confidence_basis_for_pass :
      List EvidenceSignal → FindingClass → ThresholdRuleSet → ConfidenceBasis
  confidence_basis_for_pass signals final rules =
      let proving = filter (signal_proves (admitted_kinds_for final rules) rules) signals in
      if not (is_empty proving) && all proving (λ s. at_inclusive_boundary s rules)
      then at_threshold
      else threshold_met

  unfoldable pub broken_proof_satisfied : List EvidenceSignal → ThresholdRuleSet → Bool
  unfolding any_signal_proves
  broken_proof_satisfied signals rules = any_signal_proves signals rules.broken_proof_signals rules

  unfoldable pub confusing_proof_satisfied : List EvidenceSignal → ThresholdRuleSet → Bool
  unfolding any_signal_proves
  confusing_proof_satisfied signals rules =
      any_signal_proves signals rules.confusing_proof_signals rules

  unfoldable pub changed_mind_proof_satisfied : List EvidenceSignal → ThresholdRuleSet → Bool
  unfolding any_signal_proves
  changed_mind_proof_satisfied signals rules =
      if any signals (λ s. disqualifies_changed_mind (kind_of s))
      then false
      else any_signal_proves signals rules.changed_mind_proof_signals rules

  unfoldable pub instrumentation_proof_satisfied : List EvidenceSignal → ThresholdRuleSet → Bool
  unfolding any_signal_proves
  instrumentation_proof_satisfied signals rules =
      any_signal_proves signals rules.instrumentation_proof_signals rules

  pub record ProofPredicate : Type 0 where
    pub name : String
    pub version : ℕ
    pub satisfied : List EvidenceSignal → ThresholdRuleSet → Bool

  abbrev pub proof_predicate : FindingClass → ProofPredicate
  proof_predicate broken = record {
    name = "broken_failure_correlated";
    version = proof_predicate_version;
    satisfied = broken_proof_satisfied;
  }
  proof_predicate confusing = record {
    name = "confusing_struggle";
    version = proof_predicate_version;
    satisfied = confusing_proof_satisfied;
  }
  proof_predicate changed_mind = record {
    name = "changed_mind_clean_exit";
    version = proof_predicate_version;
    satisfied = changed_mind_proof_satisfied;
  }
  proof_predicate instrumentation = record {
    name = "instrumentation_rate_drop";
    version = proof_predicate_version;
    satisfied = instrumentation_proof_satisfied;
  }
