-- ===== src/Detect/Analysed.antt =====
-- packages/core/src/detect/analysed.ts: the sessions that count, and what could not be read.
use growthmind.Prelude.{
  Bool, true, false, Option, none, some, List, [], ◌∷◌, ◌++◌, filter, length, Text,
}
use growthmind.Counts.{ExclusionReason, kept_none}
use growthmind.Detect.Types.{TimelineEvent, SessionTimeline, DetectorCoverage, DetectorCorpus}

abbrev pub is_none_reason : ExclusionReason → Bool
is_none_reason kept_none = true
is_none_reason _ = false

abbrev pub is_kept : SessionTimeline → Bool
is_kept session = is_none_reason session.exclusion_reason

-- `sessions.flatMap((session) => session.events)`
abbrev pub all_events : List SessionTimeline → List TimelineEvent
all_events [] = []
all_events (s ∷ ss) = s.events ++ all_events ss

abbrev pub lacks_path : Option Text → Bool
lacks_path none = true
lacks_path (some _) = false

pub record AnalysedSessions : Type 0 where
  pub kept : List SessionTimeline
  pub coverage : DetectorCoverage

unfoldable pub analysed_sessions : DetectorCorpus → AnalysedSessions
analysed_sessions corpus =
    let kept = filter is_kept corpus.sessions in
    record {
      kept = kept;
      coverage = record {
        truncated = corpus.coverage.truncated;
        events_without_url_path =
            length (filter (λ (e : TimelineEvent). lacks_path e.url_path) (all_events kept));
      };
    }
