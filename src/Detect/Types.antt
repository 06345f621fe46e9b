-- ===== src/Detect/Types.antt =====
-- packages/core/src/detect/types.ts, with the cohort cuts of packages/shared/src/cohort-cuts.
use growthmind.Prelude.{ℕ, Text, Bool, Option, List}
use growthmind.Counts.{AnalysisWindow, CountBasis, ExclusionReason, MeasuredCount}
use growthmind.Rules.{DetectorName, DetectorProposedClass}
use growthmind.Evidence.Signals.{EvidenceSignal}
use growthmind.Connection.{ConnectionState}
use growthmind.Replay.Types.{SessionTranscript}

abbrev pub detector_corpus_max_sessions : ℕ
detector_corpus_max_sessions = 500

pub data BrowserFamily : Type 0 where
  safari chrome firefox edge other_browser unknown_browser : BrowserFamily

pub data DeviceType : Type 0 where
  mobile tablet desktop unknown_device : DeviceType

pub record SessionCohortCuts : Type 0 where
  pub browser : BrowserFamily
  pub device : DeviceType

pub record TimelineEvent : Type 0 where
  pub source_event_id : Text
  pub name : Text
  pub occurred_at : ℕ
  pub url_path : Option Text
  pub url_path_normalisation_version : Option ℕ

pub record SessionTimeline : Type 0 where
  pub session_id : Text
  pub started_at : ℕ
  pub exclusion_reason : ExclusionReason
  pub entry_url_path : Option Text
  pub events : List TimelineEvent
  pub cohort_cuts : Option SessionCohortCuts
  pub who_counts_unchecked : Option Bool
  -- `undefined` and `null` are both `none`: no reader tells them apart.
  pub identity_group : Option ℕ

pub record DetectorCoverage : Type 0 where
  pub truncated : Bool
  pub events_without_url_path : ℕ

pub record SessionReplay : Type 0 where
  pub session_id : Text
  pub transcript : SessionTranscript

pub record DetectorCorpus : Type 0 where
  pub project_id : Text
  pub window : AnalysisWindow
  pub connection_state : ConnectionState
  pub sessions : List SessionTimeline
  pub replays : Option (List SessionReplay)
  pub basis : CountBasis
  pub coverage : DetectorCoverage

pub data ClaimSubject : Type 0 where
  surface_subject : ClaimSubject

pub record DetectorCandidate : Type 0 where
  pub detector : DetectorName
  pub claimed_class : DetectorProposedClass
  pub claim_subject : ClaimSubject
  pub surface : Text
  pub surface_normalisation_version : Option ℕ
  pub signals : List EvidenceSignal
  pub counts : List MeasuredCount
  pub timeframe : AnalysisWindow
  pub coverage : DetectorCoverage

pub record DetectorResult : Type 0 where
  pub detector : DetectorName
  pub connection_state : ConnectionState
  pub coverage : DetectorCoverage
  pub candidates : List DetectorCandidate
