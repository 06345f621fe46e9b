-- ===== src/Signatures/Identity.antt =====
-- packages/db/src/services/signature-ledger.service.ts: the signature of a candidate, and the operations
-- that take a candidate. SHA-256 in hexadecimal is a parameter. `none` is a thrown Error.
pub mod Laws
use growthmind.Prelude.{
  ℕ, Text, text_eq, Bool, not, ◌||◌, ◌==◌, Option, none, some, ◌>>=◌, if◌then◌else◌,
}
use growthmind.Platform.{Platform}
use growthmind.Rules.{FindingClass}
use growthmind.Sessions.UrlPath.{is_normalised_url_path}
use growthmind.Findings.Candidate.{CandidateFinding}
use growthmind.Findings.EvidenceShape.{signature_tuple, signature_tuple_version}
use growthmind.Findings.Suppression.{
  SuppressionDecision, unknown_shape_version, suppression_decision, suppression_policy_version,
}
use growthmind.Signatures.Ledger.{Ledger, UpsertSeenInput, upsert_seen}
use growthmind.Signatures.Service.{consult_signature, is_project}

-- `EVIDENCE_SHAPE_SERIALISERS.has(version)`
abbrev pub has_serialiser : ℕ → Bool
has_serialiser version = version == 1 || (version == 2 || version == 3)

pub record ComputeFindingSignatureInput : Type 0 where
  pub project_id : Text
  pub surface : Text
  pub symptom_class : FindingClass
  pub evidence_shape : Text

abbrev pub to_compute_input : Text → CandidateFinding → ComputeFindingSignatureInput
to_compute_input project_id candidate = record {
  project_id = project_id;
  surface = candidate.surface;
  symptom_class = candidate.final_class;
  evidence_shape = candidate.evidence_shape;
}

abbrev pub seen_input : Text → Text → CandidateFinding → ℕ → UpsertSeenInput
seen_input project_id signature candidate now = record {
  project_id = project_id;
  signature = signature;
  symptom_class = candidate.final_class;
  surface = candidate.surface;
  signature_tuple_version = signature_tuple_version;
  evidence_shape_version = candidate.evidence_shape_version;
  surface_normalisation_version = candidate.surface_normalisation_version;
  seen_at = now;
}

module _ (W : Platform) (sha256_hex : Text → Text) where
  unfoldable pub compute_finding_signature : ComputeFindingSignatureInput → Option Text
  unfolding signature_tuple is_normalised_url_path
  compute_finding_signature input =
      if not (is_normalised_url_path W input.surface) then none else (do
        tuple ←
            signature_tuple
              (record {
                project_id = input.project_id;
                surface_id = input.surface;
                symptom_class = input.symptom_class;
                evidence_shape = input.evidence_shape;
              })
              signature_tuple_version
        some (sha256_hex tuple))

  -- The signature, and the ledger in which it was seen.
  unfoldable pub record_signature : Text → CandidateFinding → ℕ → Ledger → Option (Text × Ledger)
  unfolding compute_finding_signature upsert_seen text_eq
  record_signature project_id candidate now ledger =
      if not (is_project ledger project_id) then none else (do
        signature ← compute_finding_signature (to_compute_input project_id candidate)
        some (signature, upsert_seen (seen_input project_id signature candidate now) ledger))

  unfoldable pub consult_candidate : Ledger → Text → CandidateFinding → Option SuppressionDecision
  unfolding compute_finding_signature suppression_decision consult_signature
  consult_candidate ledger project_id candidate =
      if not (has_serialiser candidate.evidence_shape_version)
      then suppression_decision unknown_shape_version suppression_policy_version
      else (do
        signature ← compute_finding_signature (to_compute_input project_id candidate)
        consult_signature ledger project_id signature)
