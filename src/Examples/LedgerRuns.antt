-- ===== src/Examples/LedgerRuns.antt =====
-- A small ledger in which a finding is seen, delivered, dismissed and given a new signature, the stages of
-- a first run, and the windows of a digest.
use growthmind.Prelude.{
  text_eq, map_get, ℕ, ◌+◌, ◌*◌, ◌≤◌, ◌≡◌, ◌≢◌, refl, Text, text, true, false, none, some, [], ◌∷◌,
  filter, length, any, arith, ap, inl, ◌↔◌, ◌⊎◌, ◌<◌,
}
use growthmind.Rules.{broken, error_event}
use growthmind.Detect.Types.{surface_subject}
use growthmind.Evidence.Predicates.{threshold_met}
use growthmind.Examples.{one_day, count_of_30}
use growthmind.Findings.Candidate.{CandidateFinding}
use growthmind.Signatures.Identity.{record_signature, consult_candidate}
use growthmind.Signatures.Identity.Laws.{consult_candidate-delivered}
use growthmind.Examples.FindingRuns.{small_platform}
use growthmind.Signatures.Ledger.{AncestryRecord, Ledger, LedgerRow, surface_rename, not_useful}
use growthmind.Signatures.Service.{
  resolved_to, resolve_forward, resolve_loop, mark_signature_delivered, RecordDismissalInput,
  RecordAncestryInput, resolve, consult_signature, record_dismissal, record_ancestry,
}
use growthmind.Signatures.Service.Laws.{is_suppressed}
use growthmind.Signatures.Service.Dismissal.{consult_signature-record_dismissal}
use growthmind.Signatures.Service.Delivered.{consult_signature-marked}
use growthmind.Signatures.Service.Walk.{IsEnd, resolve-IsEnd}
use growthmind.Signatures.Service.Ancestry.{consult_signature-record_ancestry}
use growthmind.Onboarding.Stage.{StagePersistedFacts, running, reduce_stage}
use growthmind.Onboarding.Stage.Laws.{stage_rank, IsLater, stage_rank-reduce_stage_mono}
use growthmind.Onboarding.Setup.Laws.{Blocks, next_blocker-Blocks}
use growthmind.Onboarding.Setup.{SetupFacts, channel, next_blocker, connected_receiving}
use growthmind.Onboarding.Steps.{StepSequenceFacts, derive_step_states}
use growthmind.Onboarding.Steps.Laws.{is_asked, asks, derive_step_states_lem}
use growthmind.Notifications.Digest.{
  day_ms, notification_window_days, digest_window_end, digest_window_start,
}
use growthmind.Notifications.Digest.Laws.{digest_window_start_lem}

abbrev seen_once : LedgerRow
seen_once = record {
  symptom_class = broken;
  surface = text "/cart";
  signature_tuple_version = 1;
  evidence_shape_version = 3;
  surface_normalisation_version = some 2;
  first_seen_at = 10;
  last_seen_at = 10;
  times_seen = 1;
  delivered_at = none;
  dismissed_at = none;
}

-- The signatures `a` and `z` were replaced by `b`, which has a row.
abbrev renamed : Ledger
renamed = record {
  projects = text "p" ∷ [];
  members = text "u" ∷ [];
  rows = ((text "p", text "b"), seen_once) ∷ [];
  dismissals = [];
  edges =
      (
        text "a",
        record { project_id = text "p"; new_signature = text "b"; reason = surface_rename },
      )
      ∷ (
        text "z",
        record { project_id = text "p"; new_signature = text "b"; reason = surface_rename },
      )
      ∷ [];
}

abbrev to_b : AncestryRecord
to_b = record { project_id = text "p"; new_signature = text "b"; reason = surface_rename }

resolve-IsEnd_example :
    (resolve renamed (text "a") ≡ resolved_to (text "b") 1) ↔ IsEnd renamed (text "a") (text "b") 1
resolve-IsEnd_example = resolve-IsEnd renamed (text "a") (text "b") 1

abbrev press : RecordDismissalInput
press = record {
  project_id = text "p";
  finding_id = text "f";
  signature = text "a";
  action = not_useful;
  dismissed_by_user_id = some (text "u");
}

abbrev pressed : Ledger
pressed = record renamed {
  rows = ((text "p", text "b"), record seen_once { dismissed_at = some 20 }) ∷ [];
  dismissals =
      (
        text "f",
        record {
          project_id = text "p";
          signature = text "b";
          action = not_useful;
          dismissed_by_user_id = some (text "u");
          dismissed_at = 20;
        },
      )
      ∷ [];
}

press_recorded : record_dismissal press 20 renamed ≡ some pressed
unfolding record_dismissal
press_recorded = refl

consult_signature-record_dismissal_example :
    is_suppressed (consult_signature pressed (text "p") (text "z")) ≡ true
unfolding map_get text_eq
consult_signature-record_dismissal_example =
    consult_signature-record_dismissal press 20 renamed (text "b") (text "z") 1 1
      ((to_b, refl, refl), refl, omega arith) (to_b, refl, refl) tt press_recorded

abbrev told : Ledger
told = record renamed {
  rows = ((text "p", text "b"), record seen_once { delivered_at = some 30 }) ∷ [];
}

told_marked : mark_signature_delivered (text "p") (text "a") 30 renamed ≡ some told
unfolding mark_signature_delivered
told_marked = refl

consult_signature-marked_example :
    is_suppressed (consult_signature told (text "p") (text "z")) ≡ true
unfolding map_get text_eq
consult_signature-marked_example =
    consult_signature-marked (text "p") (text "a") (text "b") (text "z") 1 1 30 renamed
      ((to_b, refl, refl), refl, omega arith) (to_b, refl, refl) refl told_marked

abbrev replaced : RecordAncestryInput
replaced = record {
  project_id = text "p";
  old_signature = text "b";
  new_signature = text "c";
  reason = surface_rename;
}

abbrev b_row : LedgerRow
b_row = record seen_once { dismissed_at = some 20 }

abbrev replaced_ledger : Ledger
replaced_ledger = record pressed {
  rows = ((text "p", text "b"), b_row) ∷ ((text "p", text "c"), b_row) ∷ [];
  edges =
      (
        text "a",
        record { project_id = text "p"; new_signature = text "b"; reason = surface_rename },
      )
      ∷ (
        text "z",
        record { project_id = text "p"; new_signature = text "b"; reason = surface_rename },
      )
      ∷ (
        text "b",
        record { project_id = text "p"; new_signature = text "c"; reason = surface_rename },
      )
      ∷ [];
}

replacement_recorded : record_ancestry replaced pressed ≡ some replaced_ledger
unfolding record_ancestry
replacement_recorded = refl

abbrev first_unit : Text → ℕ
first_unit [] = 0
first_unit (c ∷ s) = c

b_is_not_c : text "b" ≢ text "c"
b_is_not_c = λ h. let unit : 98 ≡ 99 = ap first_unit h in omega (arith, unit)

consult_signature-record_ancestry_example :
    is_suppressed (consult_signature replaced_ledger (text "p") (text "z")) ≡ true
unfolding map_get text_eq
consult_signature-record_ancestry_example =
    consult_signature-record_ancestry replaced pressed (text "z") 1 refl refl refl refl b_is_not_c
      replacement_recorded (inl (to_b, refl, refl))

abbrev watching : StagePersistedFacts
watching = record {
  armed_at = some 1_000;
  retrieved_at = none;
  reading_at = none;
  ended_at = none;
  run_status = some running;
  run_outcome = none;
  finding = none;
}

abbrev reading : StagePersistedFacts
reading = record watching { reading_at = some 5_000 }

reading-IsLater : IsLater watching reading
reading-IsLater = record { armed = refl; reading = tt; finding = tt; run = tt; outcome = tt }

stage_rank-reduce_stage_mono_example :
    stage_rank (reduce_stage watching 4_000) ≤ stage_rank (reduce_stage reading 9_000)
stage_rank-reduce_stage_mono_example =
    stage_rank-reduce_stage_mono watching reading 4_000 9_000 reading-IsLater

abbrev set_up : StepSequenceFacts
set_up = record {
  connection_status = some connected_receiving;
  slack_connected = false;
  slack_skipped = false;
  slack_test_post_failed = false;
  agent_connected = false;
  armed_at = none;
  reopened_read_only = false;
}

derive_step_states_lem_example :
    (length (filter is_asked (derive_step_states set_up)) ≤ 1)
    × (any (derive_step_states set_up) is_asked ≡ asks true false false none)
    × (any (derive_step_states set_up) (λ view. view.interactive) ≡ true)
derive_step_states_lem_example = derive_step_states_lem set_up

digest_window_start_lem_example :
    (digest_window_start (some 500) (digest_window_end 700_000_000) ≤ digest_window_end 700_000_000)
    × (digest_window_end 700_000_000
        ≤ digest_window_start (some 500) (digest_window_end 700_000_000)
          + notification_window_days * day_ms)
    × (((digest_window_end 700_000_000 ≤ digest_window_end 500 + notification_window_days * day_ms)
          × (digest_window_start (some 500) (digest_window_end 700_000_000)
              ≡ digest_window_end 500))
        ⊎ ((digest_window_end 500 + notification_window_days * day_ms
              < digest_window_end 700_000_000)
            × (digest_window_start (some 500) (digest_window_end 700_000_000)
                  + notification_window_days * day_ms
                ≡ digest_window_end 700_000_000)))
digest_window_start_lem_example = digest_window_start_lem 500 700_000_000 (omega arith)

abbrev cart_broken : CandidateFinding
cart_broken = record {
  detector = error_event;
  claimed_class = broken;
  final_class = broken;
  trace = [];
  counts = count_of_30 3 ∷ [];
  timeframe = one_day;
  signals = [];
  claim_subject = surface_subject;
  surface = text "/cart";
  surface_normalisation_version = some 2;
  evidence_shape = text "{}";
  evidence_shape_version = 3;
  threshold_rule_set_version = 1;
  ranking = record { sample_size = count_of_30 3; confidence_basis = threshold_met };
  coverage = record { truncated = false; events_without_url_path = 0 };
}

abbrev empty_ledger : Ledger
empty_ledger = record {
  projects = text "p" ∷ [];
  members = [];
  rows = [];
  dismissals = [];
  edges = [];
}

-- The digest is the text itself here.
abbrev cart_signature : Text
cart_signature =
    text
      "{\"evidenceShape\":\"{}\",\"projectId\":\"p\",\"surfaceId\":\"/cart\",\"symptomClass\":\"broken\",\"v\":1}"

abbrev seen_ledger : Ledger
seen_ledger = record empty_ledger { rows = ((text "p", cart_signature), seen_once) ∷ [] }

abbrev delivered_ledger : Ledger
delivered_ledger = record empty_ledger {
  rows = ((text "p", cart_signature), record seen_once { delivered_at = some 30 }) ∷ [];
}

cart_seen :
    record_signature small_platform (λ t. t) (text "p") cart_broken 10 empty_ledger
    ≡ some (cart_signature, seen_ledger)
unfolding record_signature
cart_seen = refl

cart_delivered :
    mark_signature_delivered (text "p") cart_signature 30 seen_ledger ≡ some delivered_ledger
unfolding mark_signature_delivered
cart_delivered = refl

cart_not_replaced : resolve_forward seen_ledger cart_signature ≡ cart_signature
unfolding resolve_loop
cart_not_replaced = refl

consult_candidate-delivered_example :
    is_suppressed
      (consult_candidate small_platform (λ t. t) delivered_ledger (text "p") cart_broken)
    ≡ true
consult_candidate-delivered_example =
    consult_candidate-delivered small_platform (λ t. t) (text "p") cart_broken 10 30 empty_ledger
      cart_seen cart_not_replaced cart_delivered

abbrev half_set_up : SetupFacts
half_set_up = record {
  analytics_attached = true;
  workspace_attached = true;
  delivery_resolved = false;
  armed_at = none;
}

next_blocker-Blocks_example : Blocks half_set_up (some channel)
unfolding next_blocker
next_blocker-Blocks_example = next_blocker-Blocks half_set_up
