-- ===== src/Onboarding/Stage.antt =====
-- packages/shared/src/onboarding/stage.ts, with types.ts and the run of summary/types.ts: which stage of
-- its first run a customer is shown. An instant is a number of milliseconds.
pub mod Laws
use growthmind.Prelude.{ℕ, ◌+◌, ◌-◌, ◌/◌, Text, Option, none, some, List}

pub data AnalysisRunStatus : Type 0 where
  running completed run_failed : AnalysisRunStatus

pub data AnalysisOutcome : Type 0 where
  produced_findings no_candidates_passed_gate no_sessions_to_analyse : AnalysisOutcome

pub data EndedReason : Type 0 where
  failed ended_no_candidates ended_no_sessions : EndedReason

pub data SummarySource : Type 0 where
  model_rendered floor_no_key_configured floor_cap_exhausted floor_model_call_failed
        floor_model_output_invalid floor_model_text_rejected :
      SummarySource

-- Counts of sessions.
pub record OnboardingCount : Type 0 where
  pub numerator : ℕ
  pub denominator : ℕ

pub record OnboardingFinding : Type 0 where
  pub final_class : Text
  pub headline : Text
  pub context : List Text
  pub counts : List OnboardingCount
  pub surface : Text
  pub confidence_basis : Text
  pub window_start : ℕ
  pub window_end : ℕ
  pub summary_source : SummarySource

pub record StagePersistedFacts : Type 0 where
  pub armed_at : Option ℕ
  pub retrieved_at : Option ℕ
  pub reading_at : Option ℕ
  pub ended_at : Option ℕ
  pub run_status : Option AnalysisRunStatus
  pub run_outcome : Option AnalysisOutcome
  pub finding : Option OnboardingFinding

pub record StageMilestones : Type 0 where
  pub retrieved_at_seconds : Option ℕ
  pub reading_at_seconds : Option ℕ

pub data RenderedStageState : Type 0 where
  unarmed : RenderedStageState
  leg1 leg2 : (elapsed_seconds : ℕ) (milestones : StageMilestones) → RenderedStageState
  found :
      (elapsed_seconds : ℕ) (finding : OnboardingFinding) (milestones : StageMilestones)
      → RenderedStageState
  ended :
      (elapsed_seconds : ℕ) (reason : EndedReason) (milestones : StageMilestones)
      → RenderedStageState

-- `Math.round` takes a half up, and a difference below zero is shown as zero.
abbrev pub whole_seconds_between : ℕ → ℕ → ℕ
whole_seconds_between origin_ms at_ms = (at_ms - origin_ms + 500) / 1_000

abbrev pub offset_of : Option ℕ → ℕ → Option ℕ
offset_of none origin_ms = none
offset_of (some moment) origin_ms = some (whole_seconds_between origin_ms moment)

-- `runOutcome !== null && runOutcome !== "produced_findings"`
abbrev pub outcome_reason : Option AnalysisOutcome → Option EndedReason
outcome_reason none = none
outcome_reason (some produced_findings) = none
outcome_reason (some no_candidates_passed_gate) = some ended_no_candidates
outcome_reason (some no_sessions_to_analyse) = some ended_no_sessions

abbrev pub ended_reason_for : Option AnalysisRunStatus → Option AnalysisOutcome → Option EndedReason
ended_reason_for none run_outcome = none
ended_reason_for (some running) run_outcome = none
ended_reason_for (some run_failed) run_outcome = some failed
ended_reason_for (some completed) run_outcome = outcome_reason run_outcome

abbrev pub milestones_of : StagePersistedFacts → Option ℕ → StageMilestones
milestones_of facts none = record { retrieved_at_seconds = none; reading_at_seconds = none }
milestones_of facts (some armed_ms) = record {
  retrieved_at_seconds = offset_of facts.retrieved_at armed_ms;
  reading_at_seconds = offset_of facts.reading_at armed_ms;
}

-- `facts.endedAt === null ? nowMs : facts.endedAt.getTime()`
abbrev pub end_or_now : Option ℕ → ℕ → ℕ
end_or_now none now_ms = now_ms
end_or_now (some at) now_ms = at

abbrev pub elapsed_since : Option ℕ → ℕ → ℕ
elapsed_since none at_ms = 0
elapsed_since (some armed_ms) at_ms = whole_seconds_between armed_ms at_ms

-- The last two returns: a run that is under way.
abbrev pub leg_of : Option ℕ → ℕ → StageMilestones → RenderedStageState
leg_of none elapsed milestones = leg1 elapsed milestones
leg_of (some reading) elapsed milestones = leg2 elapsed milestones

abbrev pub ended_or_leg :
    Option EndedReason → StagePersistedFacts → ℕ → ℕ → StageMilestones → RenderedStageState
ended_or_leg none facts waiting terminal milestones = leg_of facts.reading_at waiting milestones
ended_or_leg (some reason) facts waiting terminal milestones = ended terminal reason milestones

abbrev pub armed_stage :
    Option ℕ → StagePersistedFacts → ℕ → ℕ → StageMilestones → RenderedStageState
armed_stage none facts waiting terminal milestones = unarmed
armed_stage (some armed_ms) facts waiting terminal milestones =
    ended_or_leg (ended_reason_for facts.run_status facts.run_outcome) facts waiting terminal
      milestones

abbrev pub found_or_stage :
    Option OnboardingFinding → StagePersistedFacts → ℕ → ℕ → StageMilestones → RenderedStageState
found_or_stage none facts waiting terminal milestones =
    armed_stage facts.armed_at facts waiting terminal milestones
found_or_stage (some finding) facts waiting terminal milestones = found terminal finding milestones

unfoldable pub reduce_stage : StagePersistedFacts → ℕ → RenderedStageState
reduce_stage facts now_ms =
    let milestones = milestones_of facts facts.armed_at in
    let waiting_elapsed = elapsed_since facts.armed_at now_ms in
    let terminal_elapsed = elapsed_since facts.armed_at (end_or_now facts.ended_at now_ms) in
    found_or_stage facts.finding facts waiting_elapsed terminal_elapsed milestones
