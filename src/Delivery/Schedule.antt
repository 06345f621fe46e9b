-- ===== src/Delivery/Schedule.antt =====
-- packages/core/src/delivery/schedule.ts: one delivery lane decides whether to deliver and what.
-- Instants are milliseconds since the epoch, so a difference that the source clamps at zero is
-- truncated subtraction.
pub mod Order
pub mod Laws
use growthmind.Prelude.{
  ℕ, ◌*◌, ◌-◌, ◌/◌, max, Text, compare_texts, Bool, true, false, Option, some, none, List, [], ◌∷◌,
  filter, length, head?, is_empty, to_sorted, ltb, if◌then◌else◌, not, Sign, compare_numbers,
  ◌then_by◌,
}
use growthmind.Evidence.Predicates.{ConfidenceBasis, threshold_met, at_threshold, below_threshold}
use growthmind.Growth.Worth.{SurfaceWorth, expected_value_of, compare_expected_value}

abbrev pub delivery_budget_per_week : ℕ
delivery_budget_per_week = 3

abbrev pub delivery_tick_interval_ms : ℕ
delivery_tick_interval_ms = 15 * 60 * 1_000

abbrev pub delivery_claim_ttl_ms : ℕ
delivery_claim_ttl_ms = 2 * delivery_tick_interval_ms

-- The instant that a claim must not be older than; zero stands for any instant before the epoch.
abbrev pub delivery_claims_expire_before : ℕ → ℕ
delivery_claims_expire_before at = at - delivery_claim_ttl_ms

abbrev pub delivery_silence_ms : ℕ → ℕ → ℕ
delivery_silence_ms last_decided_at now = max 0 (now - last_decided_at)

abbrev pub delivery_ticks_since : ℕ → ℕ → ℕ
delivery_ticks_since last_decided_at now =
    delivery_silence_ms last_decided_at now / delivery_tick_interval_ms

abbrev pub delivery_silence_before_alarm_ms : ℕ
delivery_silence_before_alarm_ms = 2 * 60 * 60 * 1_000

pub record SampleSize : Type 0 where
  pub numerator : ℕ
  pub denominator : ℕ

pub record DeliveryCandidate : Type 0 where
  pub finding_id : Text
  pub confidence_basis : ConfidenceBasis
  pub sample_size : SampleSize
  pub worth : SurfaceWorth

-- A JavaScript number: a natural number, or one that `Number.isInteger(n) && n >= 0` refuses.
pub data Amount : Type 0 where
  whole : ℕ → Amount
  not_whole : Amount

pub record DeliveryLaneState : Type 0 where
  pub open_finding_ids : List Text
  pub delivered_this_week : Amount
  pub candidates : List DeliveryCandidate

pub data NothingTodayReason : Type 0 where
  one_already_open no_findings_ready budget_spent : NothingTodayReason

pub data ScheduleDecision : Type 0 where
  deliver : (finding : DeliveryCandidate) (decided_at : ℕ) → ScheduleDecision
  nothing_today : (reason : NothingTodayReason) (decided_at : ℕ) → ScheduleDecision

abbrev pub confidence_rank : ConfidenceBasis → ℕ
confidence_rank threshold_met = 0
confidence_rank at_threshold = 1
confidence_rank below_threshold = 2

abbrev pub is_deliverable_basis : ConfidenceBasis → Bool
is_deliverable_basis below_threshold = false
is_deliverable_basis _ = true

abbrev pub is_deliverable : DeliveryCandidate → Bool
is_deliverable candidate = is_deliverable_basis candidate.confidence_basis

-- Confidence, then expected value, then the denominator, the numerator and the id.
unfoldable pub compare_delivery_candidates : DeliveryCandidate → DeliveryCandidate → Sign
compare_delivery_candidates a b =
    compare_numbers (confidence_rank a.confidence_basis) (confidence_rank b.confidence_basis)
    then_by compare_expected_value (expected_value_of a.sample_size.numerator a.worth)
        (expected_value_of b.sample_size.numerator b.worth)
    then_by compare_numbers b.sample_size.denominator a.sample_size.denominator
    then_by compare_numbers b.sample_size.numerator a.sample_size.numerator
    then_by compare_texts a.finding_id b.finding_id

abbrev pub budget_remains : Amount → Bool
budget_remains (whole n) = ltb n delivery_budget_per_week
budget_remains not_whole = false

-- `const [chosen] = sorted`, of a list that is not empty where the source reads it.
abbrev deliver_first : ℕ → Option DeliveryCandidate → ScheduleDecision
deliver_first now (some chosen) = deliver chosen now
deliver_first now none = nothing_today no_findings_ready now

unfoldable pub decide_delivery : DeliveryLaneState → ℕ → ScheduleDecision
decide_delivery lane now =
    let eligible = filter is_deliverable lane.candidates in
    if not (is_empty lane.open_finding_ids)
    then nothing_today one_already_open now
    else if not (budget_remains lane.delivered_this_week)
    then nothing_today budget_spent now
    else if is_empty eligible
    then nothing_today no_findings_ready now
    else deliver_first now (head? (to_sorted compare_delivery_candidates eligible))
