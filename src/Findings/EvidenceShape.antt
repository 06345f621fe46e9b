-- ===== src/Findings/EvidenceShape.antt =====
-- packages/core/src/findings/evidence-shape.ts and signature-tuple.ts: the texts from which the
-- identity of a finding is derived, each by the version that wrote it. `none` is what is thrown: by a
-- surface that is not normalised, or by a version without a serialiser.
pub mod Laws
use growthmind.Prelude.{
  ℕ, Text, text, Option, none, some, List, [], ◌∷◌, map, ◌==◌, if◌then◌else◌, ◌>>=◌,
}
use growthmind.Platform.{Platform}
use growthmind.Sessions.UrlPath.{is_normalised_url_path}
use growthmind.Rules.{
  DetectorName, funnel_dropoff, error_event, observed_struggle, FindingClass, broken, confusing,
  changed_mind, instrumentation, EvidenceSignalKind,
}
use growthmind.Evidence.Signals.{EvidenceSignal, kind_of}
use growthmind.Serialise.CanonicalJson.{
  CanonicalValue, null_value, text_value, number_value, array_value, object_value, natural,
  CanonicalValues, no_values, value_then, CanonicalFields, no_fields, field_then, canonical_json,
}

abbrev pub evidence_shape_version : ℕ
evidence_shape_version = 3

pub record EvidenceShapeInput : Type 0 where
  pub detector : DetectorName
  pub surface : Text
  pub surface_normalisation_version : Option ℕ
  pub signals : List EvidenceSignal
  pub proof_kinds : List EvidenceSignalKind
  pub symptom_class : FindingClass

-- The words of the enumerations.
abbrev pub detector_word : DetectorName → Text
detector_word funnel_dropoff = text "funnel_dropoff"
detector_word error_event = text "error_event"
detector_word observed_struggle = text "observed_struggle"

abbrev pub class_word : FindingClass → Text
class_word broken = text "broken"
class_word confusing = text "confusing"
class_word changed_mind = text "changed_mind"
class_word instrumentation = text "instrumentation"

abbrev pub kind_word : EvidenceSignalKind → Text
kind_word EvidenceSignalKind.failure_correlated = text "failure_correlated"
kind_word EvidenceSignalKind.failure_uncorrelated = text "failure_uncorrelated"
kind_word EvidenceSignalKind.struggle = text "struggle"
kind_word EvidenceSignalKind.clean_exit = text "clean_exit"
kind_word EvidenceSignalKind.instrumentation_rate_drop = text "instrumentation_rate_drop"

abbrev pub kind_values : List EvidenceSignalKind → CanonicalValues
kind_values [] = no_values
kind_values (k ∷ ks) = value_then (text_value (kind_word k)) (kind_values ks)

abbrev pub version_value : Option ℕ → CanonicalValue
version_value none = null_value
version_value (some n) = number_value (natural n)

abbrev pub number_of : ℕ → CanonicalValue
number_of n = number_value (natural n)

abbrev pub fields_v3 : EvidenceShapeInput → Text → CanonicalFields
fields_v3 input surface = field_then (text "v") (number_of 3) (
    field_then (text "detector") (text_value (detector_word input.detector)) (
      field_then (text "surface") (text_value surface) (
        field_then (text "proofKinds") (array_value (kind_values input.proof_kinds)) (
          field_then (text "symptomClass") (text_value (class_word input.symptom_class))
            no_fields))))

module _ (W : Platform) where
  abbrev pub assert_normalised_surface : Text → Option Text
  assert_normalised_surface surface =
      if is_normalised_url_path W surface then some surface else none

  unfoldable pub serialise_v1 : EvidenceShapeInput → Option Text
  unfolding canonical_json is_normalised_url_path
  serialise_v1 input = assert_normalised_surface input.surface >>= (λ surface. canonical_json (
      object_value (
        field_then (text "v") (number_of 1) (
          field_then (text "detector") (text_value (detector_word input.detector)) (
            field_then (text "surface") (text_value surface) (
              field_then (text "surfaceNormalisationVersion")
                (version_value input.surface_normalisation_version)
                (field_then (text "signalKinds")
                  (array_value (kind_values (map kind_of input.signals)))
                  (field_then (text "symptomClass") (text_value (class_word input.symptom_class))
                    no_fields))))))))

  unfoldable pub serialise_v2 : EvidenceShapeInput → Option Text
  unfolding canonical_json is_normalised_url_path
  serialise_v2 input = assert_normalised_surface input.surface >>= (λ surface. canonical_json (
      object_value (
        field_then (text "v") (number_of 2) (
          field_then (text "detector") (text_value (detector_word input.detector)) (
            field_then (text "surface") (text_value surface) (
              field_then (text "signalKinds")
                (array_value (kind_values (map kind_of input.signals)))
                (field_then (text "symptomClass") (text_value (class_word input.symptom_class))
                  no_fields)))))))

  unfoldable pub serialise_v3 : EvidenceShapeInput → Option Text
  unfolding canonical_json is_normalised_url_path
  serialise_v3 input =
      assert_normalised_surface input.surface
      >>= (λ surface. canonical_json (object_value (fields_v3 input surface)))

  unfoldable pub evidence_shape : EvidenceShapeInput → ℕ → Option Text
  unfolding serialise_v1 serialise_v2 serialise_v3
  evidence_shape candidate version =
      if version == 1
      then serialise_v1 candidate
      else if version == 2
      then serialise_v2 candidate
      else if version == 3
      then serialise_v3 candidate
      else none

abbrev pub signature_tuple_version : ℕ
signature_tuple_version = 1

pub record SignatureTupleInput : Type 0 where
  pub project_id : Text
  pub surface_id : Text
  pub symptom_class : FindingClass
  pub evidence_shape : Text

unfoldable pub serialise_tuple_v1 : SignatureTupleInput → Option Text
unfolding canonical_json
serialise_tuple_v1 input = canonical_json (
    object_value (
      field_then (text "v") (number_of 1) (
        field_then (text "projectId") (text_value input.project_id) (
          field_then (text "surfaceId") (text_value input.surface_id) (
            field_then (text "symptomClass") (text_value (class_word input.symptom_class))
              (field_then (text "evidenceShape") (text_value input.evidence_shape) no_fields))))))

unfoldable pub signature_tuple : SignatureTupleInput → ℕ → Option Text
unfolding serialise_tuple_v1
signature_tuple input version = if version == 1 then serialise_tuple_v1 input else none
