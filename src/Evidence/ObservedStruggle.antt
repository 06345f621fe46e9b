-- ===== src/Evidence/ObservedStruggle.antt =====
-- packages/core/src/evidence/observed-struggle.ts, its second half: the tallies of all sessions, and at
-- most one candidate for each page.
pub mod Laws
pub mod Total
use growthmind.Prelude.{
  ℕ, ◌+◌, max, Text, text_eq, Bool, true, false, not, ◌&&◌, Option, none, some, List, [], ◌∷◌, ◌++◌,
  map, filter, any, length, is_empty, leb, ltb, if◌then◌else◌, Sign, compare_numbers, to_sorted,
  map_get, map_set, map_values, set_add, ◌>>=◌, traverse,
}
use growthmind.Platform.{Platform}
use growthmind.Sessions.UrlPath.{normalise_url_path, is_normalised_url_path}
use growthmind.Counts.{MeasuredCount}
use growthmind.Rules.{ThresholdRuleSet, observed_struggle, proposes_confusing}
use growthmind.Evidence.Signals.{StruggleSubkind, struggle}
use growthmind.Evidence.ElementKey.{
  ElementKey, ElementKeyTier, stable, structural, stable_element_key,
}
use growthmind.Replay.Types.{
  ElementIdentity, SessionAction, page, rage_click, dead_click, field_abandoned, field_refocus,
  scroll_back, SessionTranscript, is_interactive,
}
use growthmind.Detect.Types.{
  SessionTimeline, SessionReplay, DetectorCorpus, DetectorCoverage, DetectorCandidate,
  surface_subject,
}
use growthmind.Detect.Analysed.{analysed_sessions}
use growthmind.Detect.Funnel.{count_of}
use growthmind.Evidence.StruggleTally.{
  ObservedStruggleSubkind, SessionTally, SurfaceAccumulator, Visited, accumulator_or_empty,
  largest_of, magnitude_of, subkind_of, subkinds_by_precedence, tally_actions, threshold_of,
}

abbrev pub add_tally : SessionTally → SurfaceAccumulator → SurfaceAccumulator
add_tally tally accumulator = record {
  reached_sessions = accumulator.reached_sessions + 1;
  tallies = accumulator.tallies ++ tally ∷ [];
}

abbrev pub Surfaces : Type 0
Surfaces = List (Text × SurfaceAccumulator)

-- The loop over what one session visited.
unfoldable pub add_visited : Visited → Surfaces → Surfaces
unfolding map_get map_set text_eq
add_visited [] surfaces = surfaces
add_visited ((surface, tally) ∷ visited) surfaces = add_visited visited (
    map_set text_eq surface
      (add_tally tally (accumulator_or_empty (map_get text_eq surface surfaces))) surfaces)

pub record WinningSubkind : Type 0 where
  pub subkind : ObservedStruggleSubkind
  pub attempts : ℕ
  pub qualifying_sessions : ℕ

unfoldable pub first_winning :
    List ObservedStruggleSubkind → List SessionTally → ThresholdRuleSet → Option WinningSubkind
first_winning [] tallies rules = none
first_winning (subkind ∷ subkinds) tallies rules =
    let qualifying =
      filter (leb (threshold_of rules subkind)) (map (magnitude_of subkind) tallies) in
    let next = first_winning subkinds tallies rules in
    if is_empty qualifying
    then next
    else if ltb (length qualifying) rules.struggle_observed_min_sessions
    then next
    else some (record {
      subkind = subkind;
      attempts = largest_of qualifying;
      qualifying_sessions = length qualifying;
    })

unfoldable pub winning_subkind : List SessionTally → ThresholdRuleSet → Option WinningSubkind
unfolding first_winning subkinds_by_precedence
winning_subkind tallies rules = first_winning subkinds_by_precedence tallies rules

module _ (W : Platform) where
  -- The loop over the recordings; `tallied` holds the sessions that were read.
  unfoldable pub tally_replays :
      List SessionTimeline → List SessionReplay → List Text → Surfaces → Surfaces
  unfolding tally_actions add_visited text_eq
  tally_replays kept [] tallied surfaces = surfaces
  tally_replays kept (replay ∷ replays) tallied surfaces =
      let skipped = tally_replays kept replays tallied surfaces in
      let read =
        tally_replays kept replays (set_add text_eq replay.session_id tallied)
          (add_visited (tally_actions W none replay.transcript.actions []) surfaces) in
      if not (any kept (λ s. text_eq s.session_id replay.session_id))
      then skipped
      else if any tallied (λ id. text_eq id replay.session_id)
      then skipped
      else read

abbrev pub or_no_replays : Option (List SessionReplay) → List SessionReplay
or_no_replays none = []
or_no_replays (some replays) = replays

abbrev pub observed_candidate :
    DetectorCorpus
    → DetectorCoverage
    → Text
    → WinningSubkind
    → MeasuredCount
    → MeasuredCount
    → MeasuredCount
    → DetectorCandidate
observed_candidate corpus coverage surface winner struggling reached qualifying = record {
  detector = observed_struggle;
  claimed_class = proposes_confusing;
  claim_subject = surface_subject;
  surface = surface;
  surface_normalisation_version = none;
  signals = struggle (subkind_of winner.subkind) surface winner.attempts struggling ∷ [];
  counts = reached ∷ qualifying ∷ [];
  timeframe = corpus.window;
  coverage = coverage;
}

-- One candidate for a surface with a winner; `some none` is `continue`.
unfoldable pub struggle_candidate :
    DetectorCorpus
    → DetectorCoverage
    → Text
    → SurfaceAccumulator
    → Option WinningSubkind
    → Option (Option DetectorCandidate)
struggle_candidate corpus coverage surface accumulator none = some none
struggle_candidate corpus coverage surface accumulator (some winner) = do
  struggling ← count_of corpus winner.qualifying_sessions
  reached ← count_of corpus accumulator.reached_sessions
  qualifying ← count_of corpus winner.qualifying_sessions
  some (some (observed_candidate corpus coverage surface winner struggling reached qualifying))

abbrev pub collect_some : {A : Type 0} → List (Option A) → List A
collect_some [] = []
collect_some (none ∷ os) = collect_some os
collect_some (some a ∷ os) = a ∷ collect_some os

abbrev pub candidate_at :
    DetectorCorpus
    → ThresholdRuleSet
    → DetectorCoverage
    → Text × SurfaceAccumulator
    → Option (Option DetectorCandidate)
candidate_at corpus rules coverage (surface, accumulator) =
    struggle_candidate corpus coverage surface accumulator
      (winning_subkind accumulator.tallies rules)

module _ (W : Platform) where
  unfoldable pub observed_surfaces : DetectorCorpus → Surfaces
  unfolding tally_replays analysed_sessions
  observed_surfaces corpus =
      tally_replays W (analysed_sessions corpus).kept (or_no_replays corpus.replays) [] []

  unfoldable pub observed_struggle_candidates :
      DetectorCorpus → ThresholdRuleSet → Option (List DetectorCandidate)
  unfolding observed_surfaces struggle_candidate winning_subkind traverse analysed_sessions
  observed_struggle_candidates corpus rules = do
    found ←
        traverse (candidate_at corpus rules (analysed_sessions corpus).coverage)
          (observed_surfaces corpus)
    some (collect_some found)
