-- ===== src/Examples/TextRuns.antt =====
-- Runs of the ledger's policy, of page addresses, of the gates on a model's words about a cause and of
-- a finding's identity.
use growthmind.Prelude.{
  split_on, ◌≡◌, ◌↔◌, refl, Text, text, false, none, some, List, [], ◌∷◌, All, any,
}
use growthmind.Rules.{confusing, observed_struggle, EvidenceSignalKind}
use growthmind.Sessions.UrlPath.{is_identifier_shaped_segment, redacted_path, slash}
use growthmind.Sessions.UrlPath.Laws.{redacted_path_clean}
use growthmind.Findings.Suppression.{
  ResolvedLedgerState, resolved, LedgerRowState, SuppressionReasonCode, seen_not_delivered,
  suppression_decision, suppression_policy_version, IsOpen, suppression_decision-IsOpen,
  suppression_decision_delivers, seen_only,
}
use growthmind.Findings.Suppression
use mathlib.Core.List.{Permᴰ}
use growthmind.Findings.EvidenceShape.{EvidenceShapeInput, evidence_shape, evidence_shape_version}
use growthmind.Findings.EvidenceShape.Laws.{evidence_shape_rearranged}
use growthmind.Cause.CitationGate.{CauseClaim, at_beat}
use growthmind.Cause.Guard.{guard_cause_text, is_prohibited, accepted, guard_cause_text_iff}
use growthmind.Examples.FindingRuns.{small_platform, checkout, struggling}

abbrev seen : ResolvedLedgerState
seen = resolved (some (record { delivered_at = none; dismissed_at = none }))

seen_delivers :
    suppression_decision seen suppression_policy_version
    ≡ some (Suppression.deliver seen_not_delivered)
unfolding suppression_decision
seen_delivers = refl

suppression_decision-IsOpen_example : IsOpen seen
suppression_decision-IsOpen_example =
    suppression_decision-IsOpen seen suppression_policy_version seen_delivers

abbrev tracked : Text
tracked = text "/users/jo@example.com/orders/1234567"

redacted_path_clean_example :
    All (λ s. is_identifier_shaped_segment s ≡ false) (split_on slash (redacted_path tracked))
redacted_path_clean_example = redacted_path_clean tracked

two_redacted : redacted_path tracked ≡ text "/users/:id/orders/:id"
unfolding redacted_path
two_redacted = refl

abbrev said : List CauseClaim
said =
    record { statement = text "the button does nothing"; cites_beats = at_beat 2 ∷ [] }
    ∷ record { statement = text "the form is long"; cites_beats = at_beat 1 ∷ at_beat 9 ∷ [] }
    ∷ []

abbrev statements : List Text
statements = text "the button does nothing" ∷ text "it is probably broken" ∷ []

guard_cause_text_iff_example :
    (guard_cause_text small_platform statements ≡ accepted)
    ↔ (any statements (is_prohibited small_platform) ≡ false)
guard_cause_text_iff_example = guard_cause_text_iff small_platform statements

abbrev shape_input : EvidenceShapeInput
shape_input = record {
  detector = observed_struggle;
  surface = checkout;
  surface_normalisation_version = none;
  signals = [];
  proof_kinds = EvidenceSignalKind.struggle ∷ EvidenceSignalKind.clean_exit ∷ [];
  symptom_class = confusing;
}

evidence_shape_rearranged_example :
    evidence_shape small_platform
      (record shape_input {
        proof_kinds = EvidenceSignalKind.clean_exit ∷ EvidenceSignalKind.struggle ∷ [];
        signals = struggling.signals;
        surface_normalisation_version = some 3;
      })
      evidence_shape_version
    ≡ evidence_shape small_platform shape_input evidence_shape_version
evidence_shape_rearranged_example =
    evidence_shape_rearranged small_platform shape_input
      (EvidenceSignalKind.clean_exit ∷ EvidenceSignalKind.struggle ∷ []) struggling.signals (some 3)
      (Permᴰ.swap refl refl)

shape_text :
    evidence_shape small_platform shape_input evidence_shape_version
    ≡ some (
        text
          "{\"detector\":\"observed_struggle\",\"proofKinds\":[\"clean_exit\",\"struggle\"],\"surface\":\"/checkout\",\"symptomClass\":\"confusing\",\"v\":3}")
unfolding evidence_shape
shape_text = refl
