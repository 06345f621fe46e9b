-- ===== src/Examples/DetectRuns.antt =====
-- Runs of the detectors and of the walk, on two sessions.
use growthmind.Prelude.{
  ℕ, ◌≡◌, refl, ◌≤◌, Text, text, true, false, Option, none, some, List, [], ◌∷◌, All, Returns,
  length, map, arith,
}
use growthmind.Counts.{kept_none, labels_present}
use growthmind.Rules.{ThresholdRuleSet, rule_set_v2}
use growthmind.Connection.{not_connected}
use growthmind.Detect.Types.{TimelineEvent, SessionTimeline, DetectorCorpus}
use growthmind.Detect.Analysed.{analysed_sessions}
use growthmind.Detect.Corpus.{IsSound}
use growthmind.Detect.Funnel.{FunnelDropoffCohort, detect_funnel_dropoff, funnel_dropoff_cohorts}
use growthmind.Detect.Funnel.Laws.{IsCohort, funnel_dropoff_cohorts-IsCohort}
use growthmind.Detect.Funnel.Total.{detect_funnel_dropoff_total}
use growthmind.Detect.ErrorEvent.{detect_error_event}
use growthmind.Detect.ErrorEvent.Total.{detect_error_event_total}
use growthmind.Spine.Walk.{session_walk}
use growthmind.Examples.{one_day, basis_of_30, basis_of_30-IsAccounted}

abbrev pub event : Text → Text → ℕ → Option Text → TimelineEvent
event id name at path = record {
  source_event_id = id;
  name = name;
  occurred_at = at;
  url_path = path;
  url_path_normalisation_version = some 3;
}

abbrev pub session : Text → List TimelineEvent → SessionTimeline
session id events = record {
  session_id = id;
  started_at = 0;
  exclusion_reason = kept_none;
  entry_url_path = none;
  events = events;
  cohort_cuts = none;
  who_counts_unchecked = none;
  identity_group = none;
}

abbrev pub cart : Text
cart = text "/cart"

abbrev pub paying : SessionTimeline
paying = session (text "s1") (
    event (text "e2") (text "pay") 2_000 (some cart)
    ∷ event (text "e1") (text "open") 1_000 (some (text "/"))
    ∷ event (text "e3") (text "$exception") 2_500 none
    ∷ event (text "e4") (text "open") 3_000 (some (text "/done"))
    ∷ [])

abbrev pub two_sessions : DetectorCorpus
two_sessions = record {
  project_id = text "p";
  window = one_day;
  connection_state = not_connected;
  sessions =
      paying ∷ session (text "s2") (event (text "e5") (text "open") 500 (some cart) ∷ []) ∷ [];
  replays = none;
  basis = basis_of_30;
  coverage = record { truncated = false; events_without_url_path = 0 };
}

-- The rules with thresholds that two sessions reach.
abbrev pub small_rules : ThresholdRuleSet
small_rules = record rule_set_v2 {
  error_min_affected_sessions = 1;
  funnel_min_sessions_at_origin = 2;
  funnel_min_dropoff_sessions = 1;
  struggle_observed_min_sessions = 1;
}

rows_labelled : labels_present basis_of_30 ≡ true
unfolding labels_present
rows_labelled = refl

two_within : length (analysed_sessions two_sessions).kept ≤ 30
unfolding analysed_sessions
two_within = omega arith

pub two_sessions-IsSound : IsSound two_sessions
two_sessions-IsSound = record {
  accounted = basis_of_30-IsAccounted;
  labelled = rows_labelled;
  counts_kept = two_within;
}

walked_in_order : session_walk paying ≡ text "/" ∷ cart ∷ text "/done" ∷ []
unfolding session_walk
walked_in_order = refl

-- One of two sessions at the cart goes on to the end.
cart_lost :
    map (λ (c : FunnelDropoffCohort). c.origin) (funnel_dropoff_cohorts two_sessions small_rules)
    ≡ cart ∷ []
unfolding funnel_dropoff_cohorts
cart_lost = refl

detect_funnel_dropoff_total_example : Returns (detect_funnel_dropoff two_sessions small_rules)
detect_funnel_dropoff_total_example =
    detect_funnel_dropoff_total two_sessions small_rules two_sessions-IsSound

detect_error_event_total_example : Returns (detect_error_event two_sessions small_rules)
detect_error_event_total_example =
    detect_error_event_total two_sessions two_sessions-IsSound small_rules

funnel_dropoff_cohorts-IsCohort_example :
    All
      (IsCohort small_rules (analysed_sessions two_sessions).kept)
      (funnel_dropoff_cohorts two_sessions small_rules)
funnel_dropoff_cohorts-IsCohort_example = funnel_dropoff_cohorts-IsCohort two_sessions small_rules
