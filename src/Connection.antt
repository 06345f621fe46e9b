-- ===== src/Connection.antt =====
-- packages/shared/src/session-source/types.ts: the state of the analytics connection that a corpus
-- was read through. Detectors carry it along untouched.
use growthmind.Prelude.{ℕ, Text, Bool, Option}

pub data SessionSourceKind : Type 0 where
  posthog : SessionSourceKind

pub data SourceFailureCode : Type 0 where
  invalid_credentials project_not_found unreachable rate_limited misconfigured : SourceFailureCode

pub data ConnectionHealth : Type 0 where
  health_validating health_healthy health_failing health_disconnected : ConnectionHealth

pub data InternalDomainProvenance : Type 0 where
  org_creator_email : InternalDomainProvenance

pub record ConnectionSummary : Type 0 where
  pub id : Text
  pub organization_id : Text
  pub project_id : Text
  pub source_kind : SessionSourceKind
  pub host : Text
  pub source_project_id : Text
  pub is_active : Bool
  pub health : ConnectionHealth
  pub health_reason_code : Option SourceFailureCode
  pub health_reason_message : Option Text
  pub health_checked_at : Option ℕ
  pub watermark_at : Option ℕ
  pub backfill_before : Option Text
  pub poll_interval_seconds : ℕ
  pub connected_at : ℕ
  pub inferred_internal_domain : Option Text
  pub internal_domain_provenance : Option InternalDomainProvenance

pub data ConnectionState : Type 0 where
  not_connected : ConnectionState
  validating connected_never_polled connected_no_events_yet connected_receiving failing
        disconnected :
      ConnectionSummary → ConnectionState
