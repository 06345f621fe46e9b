-- ===== src/Examples/FindingRuns.antt =====
-- Runs of observed struggle and of the assembly of findings.
use growthmind.Prelude.{
  ℕ, suc, ◌+◌, ◌≡◌, ◌<◌, ◌≤◌, ◌↔◌, refl, Text, text, true, false, Option, none, some, List, [], ◌∷◌,
  All, Returns, any, map, filter, length, is_empty, arith,
}
use growthmind.Doubles.{fractions}
use growthmind.Platform.{Platform}
use growthmind.Counts.{kept_none}
use growthmind.Rules.{confusing, proposes_confusing, observed_struggle}
use growthmind.Replay.Types.{page, scroll_back, ElementIdentity, SessionTranscript}
use growthmind.Evidence.Signals.{struggle, StruggleSubkind}
use growthmind.Evidence.Gate.{returns, pass, evaluate, entry_at, proving_signals}
use growthmind.Evidence.ObservedStruggle.{observed_struggle_candidates}
use growthmind.Evidence.ObservedStruggle.Laws.{IsObserved, observed_struggle_candidates-IsObserved}
use growthmind.Detect.Types.{DetectorCorpus, DetectorCandidate, surface_subject}
use growthmind.Sessions.UrlPath.{is_normalised_url_path}
use growthmind.Findings.Candidate.{
  CandidateFinding, trace_parses, is_reachable, last_trace_entry_concludes,
}
use growthmind.Findings.Assemble.{claim_of, found, assemble_candidate}
use growthmind.Findings.Assemble.Laws.{evaluate_accepted, assemble_candidate_total}
use growthmind.Examples.{one_day, count_of_30}
use growthmind.Examples.DetectRuns.{two_sessions, small_rules}

-- A platform for texts in lower case, whose URLs all name the checkout.
abbrev pub small_platform : Platform
small_platform = record { to_lower_case = λ t. t; url_pathname = λ t. some (text "/checkout") }

abbrev pub checkout : Text
checkout = text "/checkout"

abbrev scrolling : SessionTranscript
scrolling = record {
  actions =
      page 0 (some (text "https://shop.example/checkout"))
      ∷ scroll_back 10 somewhere
      ∷ scroll_back 20 somewhere
      ∷ scroll_back 30 somewhere
      ∷ [];
  started_at = none;
  clock_origin_at_ms = none;
  duration_ms = 40;
  pages = [];
  counts = record {
    clicks = 0;
    dead_clicks = 0;
    rage_clicks = 0;
    refocuses = 0;
    abandoned_fields = 0;
    scroll_backs = 3;
  };
  dropped_events = 0;
}
  where
    somewhere : ElementIdentity
    somewhere = record {
      node_id = 1;
      tag_name = text "div";
      id = none;
      classes = [];
      role = none;
      test_id = none;
      accessible_name = none;
      attributes = [];
    }

abbrev recorded : DetectorCorpus
recorded = record two_sessions {
  replays = some (
      record { session_id = text "s1"; transcript = scrolling }
      ∷ record { session_id = text "s1"; transcript = scrolling }
      ∷ []);
}

abbrev pub struggling : DetectorCandidate
struggling = record {
  detector = observed_struggle;
  claimed_class = proposes_confusing;
  claim_subject = surface_subject;
  surface = checkout;
  surface_normalisation_version = none;
  signals = struggle StruggleSubkind.scroll_back checkout 3 (count_of_30 1) ∷ [];
  counts = count_of_30 1 ∷ count_of_30 1 ∷ [];
  timeframe = one_day;
  coverage = record { truncated = false; events_without_url_path = 1 };
}

-- The second recording of the session is not counted.
recorded_once :
    observed_struggle_candidates small_platform recorded small_rules ≡ some (struggling ∷ [])
unfolding observed_struggle_candidates growthmind.Counts.measured_count
recorded_once = refl

checkout_normalised : is_normalised_url_path small_platform checkout ≡ true
unfolding is_normalised_url_path
checkout_normalised = refl

observed_struggle_candidates-IsObserved_example : All (IsObserved small_rules) (struggling ∷ [])
observed_struggle_candidates-IsObserved_example =
    observed_struggle_candidates-IsObserved small_platform recorded small_rules recorded_once

struggling_passes :
    evaluate fractions (claim_of struggling) small_rules
    ≡ returns (
        pass confusing (
          entry_at fractions (proving_signals fractions (claim_of struggling)) small_rules confusing
          ∷ []))
unfolding evaluate growthmind.Evidence.Predicates.confusing_proof_satisfied
    growthmind.Evidence.Gate.is_about_claim growthmind.Prelude.text_eq
    growthmind.Evidence.Predicates.signal_proves growthmind.Evidence.Predicates.magnitude_satisfied
struggling_passes = refl

evaluate_accepted_example :
    (trace_parses (
        entry_at fractions (proving_signals fractions (claim_of struggling)) small_rules confusing
        ∷ [])
      ≡ true)
    × (is_reachable confusing confusing ≡ true)
    × (last_trace_entry_concludes
          (entry_at fractions
              (proving_signals fractions (claim_of struggling))
              small_rules
              confusing
            ∷ [])
          confusing
        ≡ true)
evaluate_accepted_example =
    evaluate_accepted fractions (claim_of struggling) small_rules struggling_passes

assemble_candidate_total_example :
    (f : CandidateFinding) × (assemble_candidate fractions small_platform small_rules struggling
      ≡ some (found f))
    × (f.final_class ≡ confusing)
    × (f.trace
        ≡ entry_at fractions (proving_signals fractions (claim_of struggling)) small_rules confusing
          ∷ [])
assemble_candidate_total_example =
    assemble_candidate_total fractions small_platform small_rules struggling struggling_passes
      checkout_normalised refl (omega arith)
