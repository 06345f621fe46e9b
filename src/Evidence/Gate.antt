-- ===== src/Evidence/Gate.antt =====
-- packages/core/src/evidence/gate.ts: the ladder of classes that a claim descends until one is
-- proved. The `while` loop takes fuel: every pass adds a class to `visited`, and there are four.
pub mod Laws
pub mod Pass
use growthmind.Prelude.{
  ℕ, zero, suc, Text, text_eq, Bool, true, false, ◌&&◌, ◌||◌, not, List, [], ◌∷◌, ◌++◌, filter, all,
  any, is_empty, leb, if◌then◌else◌, Option, some, none, length, ◌==◌,
}
use growthmind.Doubles.{Doubles}
use growthmind.Counts.{AnalysisWindow, MeasuredCount}
use growthmind.Rules.{
  FindingClass, DetectorName, broken, confusing, changed_mind, instrumentation, ThresholdRuleSet,
}
use growthmind.Evidence.Signals.{
  EvidenceSignal, failure_correlated, failure_uncorrelated, struggle, clean_exit,
  instrumentation_rate_drop, signal_parses,
}
use growthmind.Detect.Types.{DetectorCoverage}
use growthmind.Evidence.Trace.{TraceEntry, trace_entry}
use growthmind.Evidence.Predicates.{proof_predicate}

pub data DowngradeDestination : Type 0 where
  to_class : FindingClass → DowngradeDestination
  to_drop : DowngradeDestination

abbrev pub downgrade_path : FindingClass → DowngradeDestination
downgrade_path broken = to_class confusing
downgrade_path confusing = to_drop
downgrade_path changed_mind = to_drop
downgrade_path instrumentation = to_drop

pub record ProposedClaim : Type 0 where
  pub detector : DetectorName
  pub claimed_class : FindingClass
  pub surface : Text
  pub surface_normalisation_version : Option ℕ
  pub signals : List EvidenceSignal
  pub counts : List MeasuredCount
  pub timeframe : AnalysisWindow
  pub coverage : DetectorCoverage

pub data GateOutcome : Type 0 where
  pass : (final_class : FindingClass) (trace : List TraceEntry) → GateOutcome
  drop : (trace : List TraceEntry) → GateOutcome

-- What `evaluate` does: throws the ZodError of `parse`, or returns. `out_of_fuel` is the loop of
-- the model stopped short.
pub data GateResult : Type 0 where
  returns : GateOutcome → GateResult
  throws_invalid : GateResult
  out_of_fuel : GateResult

abbrev pub within_timeframe : ℕ → AnalysisWindow → Bool
within_timeframe instant timeframe = leb timeframe.start instant && leb instant timeframe.end

unfoldable pub is_about_claim : EvidenceSignal → ProposedClaim → Bool
is_about_claim (struggle _ surface _ _) claim = text_eq surface claim.surface
is_about_claim (clean_exit surface) claim = text_eq surface claim.surface
is_about_claim (failure_correlated _ occurred_at _ _ _) claim =
    within_timeframe occurred_at claim.timeframe
is_about_claim (failure_uncorrelated _ occurred_at) claim =
    within_timeframe occurred_at claim.timeframe
is_about_claim (instrumentation_rate_drop _ _ _) claim = true

-- `proposedClaimSchema.parse`, of a claim that has the declared type.
unfoldable pub claim_parses : ProposedClaim → Bool
unfolding signal_parses
claim_parses claim = not (is_empty claim.surface) && all claim.signals signal_parses

abbrev pub same_class : FindingClass → FindingClass → Bool
same_class broken broken = true
same_class confusing confusing = true
same_class changed_mind changed_mind = true
same_class instrumentation instrumentation = true
same_class _ _ = false

-- `visited.has(current)`
abbrev pub has_class : List FindingClass → FindingClass → Bool
has_class visited c = any visited (λ v. same_class v c)

abbrev pub ladder_fuel : ℕ
ladder_fuel = 5

module _ (F : Doubles) where
  abbrev pub entry_at : List EvidenceSignal → ThresholdRuleSet → FindingClass → TraceEntry
  entry_at proving rules c =
      trace_entry c (proof_predicate F c).name (proof_predicate F c).version
        ((proof_predicate F c).satisfied proving rules)

  -- The `while` loop. `trace.push` appends.
  unfoldable pub descend :
      ℕ
      → List EvidenceSignal
      → ThresholdRuleSet
      → List FindingClass
      → DowngradeDestination
      → List TraceEntry
      → GateResult
  descend fuel proving rules visited to_drop trace = returns (drop trace)
  descend zero proving rules visited (to_class c) trace = out_of_fuel
  descend (suc fuel) proving rules visited (to_class c) trace =
      let trace' : List TraceEntry = trace ++ entry_at proving rules c ∷ [] in
      let lower : GateResult = descend fuel proving rules (c ∷ visited) (downgrade_path c) trace' in
      if has_class visited c
      then returns (drop trace)
      else if (proof_predicate F c).satisfied proving rules
      then returns (pass c trace')
      else lower

  abbrev pub proving_signals : ProposedClaim → List EvidenceSignal
  proving_signals claim = filter (λ s. is_about_claim s claim) claim.signals

  unfoldable pub evaluate : ProposedClaim → ThresholdRuleSet → GateResult
  unfolding descend claim_parses
  evaluate claim rules =
      if claim_parses claim
      then descend ladder_fuel (proving_signals claim) rules [] (to_class claim.claimed_class) []
      else throws_invalid

-- The `while` loop of `isReachableClass`; `none` is the loop of the model stopped short.
unfoldable pub reach : ℕ → FindingClass → List FindingClass → DowngradeDestination → Option Bool
reach fuel final visited to_drop = some false
reach zero final visited (to_class c) = none
reach (suc fuel) final visited (to_class c) =
    let lower = reach fuel final (c ∷ visited) (downgrade_path c) in
    if has_class visited c then some false else if same_class c final then some true else lower

unfoldable pub is_reachable_class : FindingClass → FindingClass → Option Bool
unfolding reach
is_reachable_class claimed final = reach ladder_fuel final [] (to_class claimed)
