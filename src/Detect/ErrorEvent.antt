-- ===== src/Detect/ErrorEvent.antt =====
-- packages/core/src/detect/error-event.ts: exceptions grouped by page, each tied to the action that
-- came before it if that was recent and a person's.
pub mod Sizes
pub mod Total
use growthmind.Prelude.{
  ℕ, ◌-◌, Text, text_eq, starts_with, Bool, true, false, not, Option, none, some, List, [], ◌∷◌,
  ◌++◌, map, filter, any, length, leb, if◌then◌else◌, map_get, map_set, set_add, ◌>>=◌, traverse,
}
use growthmind.Counts.{MeasuredCount}
use growthmind.Rules.{ThresholdRuleSet, error_event, proposes_broken}
use growthmind.Evidence.Signals.{EvidenceSignal, failure_correlated, failure_uncorrelated}
use growthmind.Detect.Types.{
  TimelineEvent, SessionTimeline, DetectorCorpus, DetectorCandidate, DetectorCoverage,
  DetectorResult, surface_subject,
}
use growthmind.Detect.Order.{order_timeline}
use growthmind.Detect.Analysed.{analysed_sessions}
use growthmind.Detect.Funnel.{count_of}
use growthmind.Spine.Walk.{same_version, unanimous}

-- A signal whose count of sessions is filled in when all sessions have been read.
pub data DraftSignal : Type 0 where
  draft_correlated :
      (event_name : Text) (occurred_at : ℕ) (preceding_action_name : Text)
      (correlation_window_ms : ℕ)
      → DraftSignal
  draft_uncorrelated : (event_name : Text) (occurred_at : ℕ) → DraftSignal

pub record SurfaceGroup : Type 0 where
  pub signals : List DraftSignal
  pub session_ids : List Text
  pub correlated_session_ids : List Text
  pub normalisation_versions : List (Option ℕ)

pub record Attribution : Type 0 where
  pub surface : Text
  pub normalisation_version : Option ℕ

abbrev attribution_at : Option Text → Option ℕ → Option Attribution
attribution_at none version = none
attribution_at (some path) version =
    some (record { surface = path; normalisation_version = version })

abbrev attribution_by_action : Option TimelineEvent → Option Attribution
attribution_by_action none = none
attribution_by_action (some action) =
    attribution_at action.url_path action.url_path_normalisation_version

-- The exception's own page, or the page of the action before it.
abbrev pub attribution_of : TimelineEvent → Option TimelineEvent → Option Attribution
attribution_of exception preceding =
    elim (attribution_at exception.url_path exception.url_path_normalisation_version) [
      | none ↦ attribution_by_action preceding
      | some a ↦ some a
    ]

-- An exception that stands before its action in time is inside the window: the difference of the
-- instants is then negative, and truncated subtraction gives zero.
unfoldable pub signal_for : TimelineEvent → Option TimelineEvent → ThresholdRuleSet → DraftSignal
signal_for exception none rules = draft_uncorrelated exception.name exception.occurred_at
signal_for exception (some action) rules =
    if leb (exception.occurred_at - action.occurred_at) rules.error_correlation_window_ms
    then draft_correlated exception.name exception.occurred_at action.name
        rules.error_correlation_window_ms
    else draft_uncorrelated exception.name exception.occurred_at

abbrev pub includes_name : List Text → Text → Bool
includes_name names name = any names (λ n. text_eq n name)

unfoldable pub is_passive_event : TimelineEvent → ThresholdRuleSet → Bool
unfolding text_eq starts_with
is_passive_event event rules =
    if includes_name rules.passive_event_names event.name
    then true
    else if starts_with event.name rules.vendor_event_prefix
    then not (includes_name rules.user_initiated_vendor_events event.name)
    else false

abbrev empty_group : SurfaceGroup
empty_group = record {
  signals = [];
  session_ids = [];
  correlated_session_ids = [];
  normalisation_versions = [];
}

abbrev pub group_or_empty : Option SurfaceGroup → SurfaceGroup
group_or_empty none = empty_group
group_or_empty (some group) = group

abbrev pub correlated_with : DraftSignal → Text → List Text → List Text
correlated_with (draft_correlated _ _ _ _) id ids = set_add text_eq id ids
correlated_with (draft_uncorrelated _ _) id ids = ids

abbrev pub add_draft : Text → DraftSignal → Option ℕ → SurfaceGroup → SurfaceGroup
add_draft id draft version group = record {
  signals = group.signals ++ draft ∷ [];
  session_ids = set_add text_eq id group.session_ids;
  correlated_session_ids = correlated_with draft id group.correlated_session_ids;
  normalisation_versions = set_add same_version version group.normalisation_versions;
}

-- The part of the loop for an event that is an exception.
unfoldable pub record_exception :
    Text
    → ThresholdRuleSet
    → TimelineEvent
    → Option Attribution
    → DraftSignal
    → List (Text × SurfaceGroup)
    → List (Text × SurfaceGroup)
unfolding map_get map_set text_eq
record_exception id rules event none draft groups = groups
record_exception id rules event (some a) draft groups =
    map_set text_eq a.surface
      (add_draft id draft a.normalisation_version
        (group_or_empty (map_get text_eq a.surface groups)))
      groups

-- What an event that is no exception leaves as `precedingAction`.
unfoldable pub next_preceding :
    ThresholdRuleSet → Option TimelineEvent → TimelineEvent → Option TimelineEvent
unfolding is_passive_event text_eq
next_preceding rules preceding event =
    if text_eq event.name rules.exception_event_name
    then preceding
    else if is_passive_event event rules
    then none
    else some event

unfoldable pub next_groups :
    Text
    → ThresholdRuleSet
    → Option TimelineEvent
    → TimelineEvent
    → List (Text × SurfaceGroup)
    → List (Text × SurfaceGroup)
unfolding record_exception signal_for text_eq
next_groups id rules preceding event groups =
    if text_eq event.name rules.exception_event_name
    then record_exception id rules event (attribution_of event preceding)
        (signal_for event preceding rules) groups
    else groups

-- The loop over a session's events in order.
unfoldable pub collect_events :
    Text
    → ThresholdRuleSet
    → Option TimelineEvent
    → List TimelineEvent
    → List (Text × SurfaceGroup)
    → List (Text × SurfaceGroup)
unfolding next_preceding next_groups
collect_events id rules preceding [] groups = groups
collect_events id rules preceding (event ∷ events) groups =
    collect_events id rules (next_preceding rules preceding event) events
      (next_groups id rules preceding event groups)

unfoldable pub collect_session :
    SessionTimeline → ThresholdRuleSet → List (Text × SurfaceGroup) → List (Text × SurfaceGroup)
unfolding collect_events order_timeline
collect_session session rules groups =
    collect_events session.session_id rules none (order_timeline session.events) groups

unfoldable pub collect_sessions :
    List SessionTimeline
    → ThresholdRuleSet
    → List (Text × SurfaceGroup)
    → List (Text × SurfaceGroup)
unfolding collect_session
collect_sessions [] rules groups = groups
collect_sessions (session ∷ sessions) rules groups =
    collect_sessions sessions rules (collect_session session rules groups)

unfoldable pub finished_signal : DetectorCorpus → SurfaceGroup → DraftSignal → Option EvidenceSignal
finished_signal corpus group (draft_correlated name at action window) = do
  c ← count_of corpus (length group.correlated_session_ids)
  some (failure_correlated name at action window c)
finished_signal corpus group (draft_uncorrelated name at) = some (failure_uncorrelated name at)

unfoldable pub candidate_of :
    DetectorCorpus → DetectorCoverage → Text × SurfaceGroup → Option DetectorCandidate
unfolding finished_signal traverse
candidate_of corpus coverage (surface, group) = do
  signals ← traverse (finished_signal corpus group) group.signals
  affected ← count_of corpus (length group.session_ids)
  some (record {
    detector = error_event;
    claimed_class = proposes_broken;
    claim_subject = surface_subject;
    surface = surface;
    surface_normalisation_version = unanimous group.normalisation_versions;
    signals = signals;
    counts = affected ∷ [];
    timeframe = corpus.window;
    coverage = coverage;
  })

abbrev pub affects_enough : ThresholdRuleSet → Text × SurfaceGroup → Bool
affects_enough rules entry = leb rules.error_min_affected_sessions (length entry.1.session_ids)

unfoldable pub detect_error_event : DetectorCorpus → ThresholdRuleSet → Option DetectorResult
unfolding collect_sessions candidate_of analysed_sessions
detect_error_event corpus rules =
    let analysed = analysed_sessions corpus in
    let groups = collect_sessions analysed.kept rules [] in
    do
      candidates ←
          traverse (candidate_of corpus analysed.coverage) (filter (affects_enough rules) groups)
      some (record {
        detector = error_event;
        connection_state = corpus.connection_state;
        coverage = analysed.coverage;
        candidates = candidates;
      })
