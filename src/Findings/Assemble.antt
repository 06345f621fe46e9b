-- ===== src/Findings/Assemble.antt =====
-- packages/core/src/findings/assemble.ts: the detectors' candidates are put to the gate, and those that
-- pass become candidate findings. `none` is what is thrown on the way.
pub mod Laws
use growthmind.Prelude.{ℕ, Text, Option, none, some, List, [], ◌∷◌, ◌++◌, head?, ◌>>=◌, traverse}
use growthmind.Doubles.{Doubles}
use growthmind.Platform.{Platform}
use growthmind.Counts.{MeasuredCount}
use growthmind.Rules.{DetectorName, FindingClass, class_of, ThresholdRuleSet}
use growthmind.Evidence.Trace.{TraceEntry}
use growthmind.Evidence.Predicates.{admissible_proof_kinds, confidence_basis_for_pass}
use growthmind.Evidence.Gate.{
  ProposedClaim, GateResult, returns, throws_invalid, out_of_fuel, pass, drop, evaluate,
}
use growthmind.Detect.Types.{DetectorCandidate, DetectorResult}
use growthmind.Findings.EvidenceShape.{EvidenceShapeInput, evidence_shape, evidence_shape_version}
use growthmind.Findings.Candidate.{CandidateFinding, candidate_finding}

pub record RejectedCandidate : Type 0 where
  pub detector : DetectorName
  pub surface : Text
  pub trace : List TraceEntry

pub record AssembledCandidates : Type 0 where
  pub candidates : List CandidateFinding
  pub rejected : List RejectedCandidate

abbrev pub claim_of : DetectorCandidate → ProposedClaim
claim_of candidate = record {
  detector = candidate.detector;
  claimed_class = class_of candidate.claimed_class;
  surface = candidate.surface;
  surface_normalisation_version = candidate.surface_normalisation_version;
  signals = candidate.signals;
  counts = candidate.counts;
  timeframe = candidate.timeframe;
  coverage = candidate.coverage;
}

-- What one candidate has become.
pub data Assembled : Type 0 where
  found : CandidateFinding → Assembled
  refused : RejectedCandidate → Assembled

abbrev pub shape_input_of : DetectorCandidate → FindingClass → ThresholdRuleSet → EvidenceShapeInput
shape_input_of candidate final rules = record {
  detector = candidate.detector;
  surface = candidate.surface;
  surface_normalisation_version = candidate.surface_normalisation_version;
  signals = candidate.signals;
  proof_kinds = admissible_proof_kinds candidate.signals final rules;
  symptom_class = final;
}

module _ (F : Doubles) (W : Platform) where
  abbrev pub finding_of :
      ThresholdRuleSet
      → DetectorCandidate
      → FindingClass
      → List TraceEntry
      → Text
      → MeasuredCount
      → CandidateFinding
  finding_of rules candidate final trace shape sample = record {
    detector = candidate.detector;
    claimed_class = class_of candidate.claimed_class;
    final_class = final;
    trace = trace;
    counts = candidate.counts;
    timeframe = candidate.timeframe;
    signals = candidate.signals;
    claim_subject = candidate.claim_subject;
    surface = candidate.surface;
    surface_normalisation_version = candidate.surface_normalisation_version;
    evidence_shape = shape;
    evidence_shape_version = evidence_shape_version;
    threshold_rule_set_version = rules.version;
    ranking = record {
      sample_size = sample;
      confidence_basis = confidence_basis_for_pass F candidate.signals final rules;
    };
    coverage = candidate.coverage;
  }

  -- The body of the loops. The schema refuses a missing `counts[0]`. The gate of the model never
  -- runs out of fuel (Evidence/Gate/Laws.antt).
  unfoldable pub assemble_outcome :
      ThresholdRuleSet → DetectorCandidate → GateResult → Option Assembled
  unfolding evidence_shape candidate_finding admissible_proof_kinds confidence_basis_for_pass
  assemble_outcome rules candidate throws_invalid = none
  assemble_outcome rules candidate out_of_fuel = none
  assemble_outcome rules candidate (returns (drop trace)) = some (
      refused
        (record { detector = candidate.detector; surface = candidate.surface; trace = trace }))
  assemble_outcome rules candidate (returns (pass final trace)) = do
    shape ← evidence_shape W (shape_input_of candidate final rules) evidence_shape_version
    sample ← head? candidate.counts
    finding ← candidate_finding (finding_of rules candidate final trace shape sample)
    some (found finding)

  unfoldable pub assemble_candidate : ThresholdRuleSet → DetectorCandidate → Option Assembled
  unfolding assemble_outcome evaluate
  assemble_candidate rules candidate =
      assemble_outcome rules candidate (evaluate F (claim_of candidate) rules)

  abbrev pub candidates_of : List DetectorResult → List DetectorCandidate
  candidates_of [] = []
  candidates_of (result ∷ results) = result.candidates ++ candidates_of results

  abbrev pub found_in : List Assembled → List CandidateFinding
  found_in [] = []
  found_in (found f ∷ rest) = f ∷ found_in rest
  found_in (refused r ∷ rest) = found_in rest

  abbrev pub refused_in : List Assembled → List RejectedCandidate
  refused_in [] = []
  refused_in (found f ∷ rest) = refused_in rest
  refused_in (refused r ∷ rest) = r ∷ refused_in rest

  unfoldable pub assemble_candidates :
      List DetectorResult → ThresholdRuleSet → Option AssembledCandidates
  unfolding assemble_candidate traverse
  assemble_candidates results rules = do
    assembled ← traverse (assemble_candidate rules) (candidates_of results)
    some (record { candidates = found_in assembled; rejected = refused_in assembled })
