-- ===== src/Examples/GateRuns.antt =====
-- Runs of the evidence gate: a failure that is proved, one that is not, and a clean exit.
use growthmind.Prelude.{
  ◌≡◌, refl, text, Text, true, false, none, some, List, [], ◌∷◌, map, any, All, Any, if◌then◌else◌,
}
use growthmind.Doubles.{fractions}
use growthmind.Rules.{FindingClass, broken, confusing, changed_mind, error_event, rule_set_v2}
use growthmind.Evidence.Signals.{
  EvidenceSignal, failure_correlated, failure_uncorrelated, struggle, clean_exit, repeated_attempt,
}
use growthmind.Evidence.Predicates.{
  proof_predicate, signal_proves, admitted_kinds_for, disqualifies_changed_mind,
}
use growthmind.Evidence.Gate.{
  ProposedClaim, pass, drop, returns, throws_invalid, claim_parses, evaluate, entry_at,
  proving_signals, is_about_claim,
}
use growthmind.Evidence.Gate.Laws.{ladder, first_proved, evaluate-eq-first_proved}
use growthmind.Evidence.Gate.Pass.{Established, evaluate-Established, evaluate_evidence}
use growthmind.Examples.{one_day, count_of_30}

abbrev checkout : Text
checkout = text "/checkout"

abbrev claim_with : FindingClass → List EvidenceSignal → ProposedClaim
claim_with c signals = record {
  detector = error_event;
  claimed_class = c;
  surface = checkout;
  surface_normalisation_version = some 3;
  signals = signals;
  counts = count_of_30 4 ∷ [];
  timeframe = one_day;
  coverage = record { truncated = false; events_without_url_path = 0 };
}

abbrev failure : EvidenceSignal
failure = failure_correlated (text "$exception") 5_000 (text "pay") 30_000 (count_of_30 4)

abbrev unrelated : EvidenceSignal
unrelated = failure_uncorrelated (text "$exception") 99_000_000

-- Six sessions tried three times: confusing, and not broken.
abbrev struggling : EvidenceSignal
struggling = struggle repeated_attempt checkout 3 (count_of_30 6)

abbrev failing_claim : ProposedClaim
failing_claim = claim_with broken (unrelated ∷ failure ∷ [])

abbrev struggling_claim : ProposedClaim
struggling_claim = claim_with broken (struggling ∷ [])

abbrev leaving_claim : ProposedClaim
leaving_claim = claim_with changed_mind (clean_exit checkout ∷ unrelated ∷ [])

abbrev unproved_claim : ProposedClaim
unproved_claim = claim_with broken (failure_uncorrelated (text "$exception") 5_000 ∷ [])

failing_passes :
    evaluate fractions failing_claim rule_set_v2
    ≡ returns (
        pass broken
          (entry_at fractions (proving_signals fractions failing_claim) rule_set_v2 broken ∷ []))
unfolding evaluate growthmind.Evidence.Predicates.broken_proof_satisfied is_about_claim
    signal_proves growthmind.Evidence.Predicates.magnitude_satisfied
failing_passes = refl

struggling_downgraded :
    evaluate fractions struggling_claim rule_set_v2
    ≡ returns (
        pass confusing (
          map
            (entry_at fractions (proving_signals fractions struggling_claim) rule_set_v2)
            (broken ∷ confusing ∷ [])))
unfolding evaluate growthmind.Evidence.Predicates.broken_proof_satisfied is_about_claim
    growthmind.Prelude.text_eq signal_proves
    growthmind.Evidence.Predicates.confusing_proof_satisfied
    growthmind.Evidence.Predicates.magnitude_satisfied
struggling_downgraded = refl

leaving_passes :
    evaluate fractions leaving_claim rule_set_v2
    ≡ returns (
        pass changed_mind (
          entry_at fractions (proving_signals fractions leaving_claim) rule_set_v2 changed_mind
          ∷ []))
unfolding evaluate growthmind.Evidence.Predicates.changed_mind_proof_satisfied is_about_claim
    growthmind.Prelude.text_eq signal_proves growthmind.Evidence.Predicates.magnitude_satisfied
leaving_passes = refl

unproved_drops :
    evaluate fractions unproved_claim rule_set_v2
    ≡ returns (
        drop (
          map
            (entry_at fractions (proving_signals fractions unproved_claim) rule_set_v2)
            (broken ∷ confusing ∷ [])))
unfolding evaluate growthmind.Evidence.Predicates.broken_proof_satisfied is_about_claim
    signal_proves growthmind.Evidence.Predicates.confusing_proof_satisfied
unproved_drops = refl

failing_parses : claim_parses failing_claim ≡ true
unfolding claim_parses
failing_parses = refl

evaluate-eq-first_proved_example : evaluate fractions failing_claim rule_set_v2 ≡ (
    if claim_parses failing_claim
    then returns (
        first_proved fractions
          (proving_signals fractions failing_claim)
          rule_set_v2
          []
          (ladder broken))
    else throws_invalid)
evaluate-eq-first_proved_example = evaluate-eq-first_proved fractions failing_claim rule_set_v2

evaluate-Established_example : Established fractions struggling_claim rule_set_v2 confusing (
    map
      (entry_at fractions (proving_signals fractions struggling_claim) rule_set_v2)
      (broken ∷ confusing ∷ []))
evaluate-Established_example =
    evaluate-Established fractions struggling_claim rule_set_v2 struggling_downgraded

evaluate_evidence_example :
    Any
      (λ s.
        (is_about_claim s failing_claim ≡ true)
        × (signal_proves fractions (admitted_kinds_for broken rule_set_v2) rule_set_v2 s ≡ true))
      failing_claim.signals
evaluate_evidence_example = evaluate_evidence fractions failing_claim rule_set_v2 failing_passes
