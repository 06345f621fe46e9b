-- ===== src/Findings/Candidate.antt =====
-- packages/core/src/findings/candidate.ts: the schema of a candidate finding, with that of its trace
-- in evidence/trace.ts. The types hold what the schema asks of the counts and the enumerations.
use growthmind.Prelude.{
  ℕ, Text, String, Bool, true, false, not, ◌&&◌, Option, none, some, List, all, is_empty, get_last?,
  ltb, if◌then◌else◌,
}
use growthmind.Counts.{MeasuredCount, AnalysisWindow}
use growthmind.Rules.{DetectorName, FindingClass}
use growthmind.Evidence.Signals.{EvidenceSignal, signal_parses}
use growthmind.Evidence.Trace.{TraceEntry}
use growthmind.Evidence.Predicates.{ConfidenceBasis}
use growthmind.Evidence.Gate.{is_reachable_class, same_class}
use growthmind.Detect.Types.{ClaimSubject, DetectorCoverage}

pub record RankingInputs : Type 0 where
  pub sample_size : MeasuredCount
  pub confidence_basis : ConfidenceBasis

pub record CandidateFinding : Type 0 where
  pub detector : DetectorName
  pub claimed_class : FindingClass
  pub final_class : FindingClass
  pub trace : List TraceEntry
  pub counts : List MeasuredCount
  pub timeframe : AnalysisWindow
  pub signals : List EvidenceSignal
  pub claim_subject : ClaimSubject
  pub surface : Text
  pub surface_normalisation_version : Option ℕ
  pub evidence_shape : Text
  pub evidence_shape_version : ℕ
  pub threshold_rule_set_version : ℕ
  pub ranking : RankingInputs
  pub coverage : DetectorCoverage

abbrev pub is_filled : String → Bool
is_filled String.[] = false
is_filled (String.◌∷◌ _ _) = true

abbrev pub trace_entry_parses : TraceEntry → Bool
trace_entry_parses entry =
    is_filled entry.predicate && (ltb 0 entry.predicate_version && is_filled entry.reason)

-- `downgradeTraceSchema`
unfoldable pub trace_parses : List TraceEntry → Bool
trace_parses trace = not (is_empty trace) && all trace trace_entry_parses

abbrev pub concludes : FindingClass → Option TraceEntry → Bool
concludes final none = false
concludes final (some entry) = same_class entry.class final && entry.satisfied

unfoldable pub last_trace_entry_concludes : List TraceEntry → FindingClass → Bool
last_trace_entry_concludes trace final = concludes final (get_last? trace)

abbrev pub is_yes : Option Bool → Bool
is_yes none = false
is_yes (some b) = b

unfoldable pub is_reachable : FindingClass → FindingClass → Bool
unfolding is_reachable_class
is_reachable claimed final = is_yes (is_reachable_class claimed final)

-- `candidateFindingSchema.parse`: `none` is the ZodError.
unfoldable pub candidate_finding : CandidateFinding → Option CandidateFinding
unfolding trace_parses last_trace_entry_concludes is_reachable signal_parses
candidate_finding c =
    if trace_parses c.trace
      && (not (is_empty c.counts)
          && (all c.signals signal_parses
              && (not (is_empty c.surface)
                  && (not (is_empty c.evidence_shape)
                      && (ltb 0 c.evidence_shape_version
                          && (ltb 0 c.threshold_rule_set_version
                              && (is_reachable c.claimed_class c.final_class
                                  && last_trace_entry_concludes c.trace c.final_class)))))))
    then some c
    else none
