-- ===== src/Onboarding/Stage/Laws.antt =====
-- packages/shared/src/onboarding/stage.ts: the order of the stages, and the facts of a run as time goes on.
use growthmind.Prelude.{ℕ, ◌≤◌, ◌≡◌, refl, Option, none, some, arith}
use growthmind.Onboarding.Stage.{
  found_or_stage, AnalysisRunStatus, running, completed, run_failed, AnalysisOutcome,
  produced_findings, no_candidates_passed_gate, no_sessions_to_analyse, EndedReason,
  OnboardingFinding, StagePersistedFacts, StageMilestones, RenderedStageState, unarmed, leg1, leg2,
  found, ended, ended_reason_for, reduce_stage,
}

abbrev pub stage_rank : RenderedStageState → ℕ
stage_rank unarmed = 0
stage_rank (leg1 _ _) = 1
stage_rank (leg2 _ _) = 2
stage_rank (ended _ _ _) = 3
stage_rank (found _ _ _) = 4

-- What was recorded stays recorded.
abbrev pub Stays : {A : Type 0} → Option A → Option A → Type 0
Stays none later = Unit
Stays (some a) later = later ≡ some a

-- A run is started, and goes on until it is completed or failed.
abbrev pub RunGoesOn : Option AnalysisRunStatus → Option AnalysisRunStatus → Type 0
RunGoesOn none later = Unit
RunGoesOn (some running) none = ⊥
RunGoesOn (some running) (some later) = Unit
RunGoesOn (some completed) later = later ≡ some completed
RunGoesOn (some run_failed) later = later ≡ some run_failed

-- Facts of the same first run, read at a later time.
pub record IsLater (earlier later : StagePersistedFacts) : Type 0 where
  pub armed : Stays earlier.armed_at later.armed_at
  pub reading : Stays earlier.reading_at later.reading_at
  pub finding : Stays earlier.finding later.finding
  pub run : RunGoesOn earlier.run_status later.run_status
  pub outcome : Stays earlier.run_outcome later.run_outcome

rank_of : Option OnboardingFinding → Option ℕ → Option EndedReason → Option ℕ → ℕ
rank_of (some finding) armed_at reason reading_at = 4
rank_of none none reason reading_at = 0
rank_of none (some at) (some reason) reading_at = 3
rank_of none (some at) none (some reading) = 2
rank_of none (some at) none none = 1

rank-found_or_stage :
    (finding : Option OnboardingFinding) (armed_at reading_at : Option ℕ)
    (reason : Option EndedReason) (facts : StagePersistedFacts) (waiting terminal : ℕ)
    (milestones : StageMilestones)
    → facts.armed_at ≡ armed_at
    → facts.reading_at ≡ reading_at
    → ended_reason_for facts.run_status facts.run_outcome ≡ reason
    → stage_rank (found_or_stage finding facts waiting terminal milestones)
      ≡ rank_of finding armed_at reason reading_at
unfolding rank_of
rank-found_or_stage (some finding) a r e facts w t m h k l = refl
rank-found_or_stage none none r e facts w t m h k l = rw h refl
rank-found_or_stage none (some at) r (some reason) facts w t m h k l = rw (h, l) refl
rank-found_or_stage none (some at) none none facts w t m h k l = rw (h, l, k) refl
rank-found_or_stage none (some at) (some reading) none facts w t m h k l = rw (h, l, k) refl

rank-reduce_stage :
    (facts : StagePersistedFacts) (now_ms : ℕ)
    → stage_rank (reduce_stage facts now_ms)
      ≡ rank_of facts.finding facts.armed_at
          (ended_reason_for facts.run_status facts.run_outcome)
          facts.reading_at
unfolding reduce_stage
rank-reduce_stage facts now_ms =
    rank-found_or_stage facts.finding facts.armed_at facts.reading_at
      (ended_reason_for facts.run_status facts.run_outcome) facts _ _ _ refl refl refl

-- The end of a run stays as it was.
Stays-ended_reason_for :
    (status later_status : Option AnalysisRunStatus)
    (outcome later_outcome : Option AnalysisOutcome)
    → RunGoesOn status later_status
    → Stays outcome later_outcome
    → Stays (ended_reason_for status outcome) (ended_reason_for later_status later_outcome)
Stays-ended_reason_for none s o p h k = tt
Stays-ended_reason_for (some running) s o p h k = tt
Stays-ended_reason_for (some run_failed) s o p h k = rw h refl
Stays-ended_reason_for (some completed) s none p h k = tt
Stays-ended_reason_for (some completed) s (some produced_findings) p h k = tt
Stays-ended_reason_for (some completed) s (some no_candidates_passed_gate) p h k = rw (h, k) refl
Stays-ended_reason_for (some completed) s (some no_sessions_to_analyse) p h k = rw (h, k) refl

rank_of_mono :
    (f g : Option OnboardingFinding) (a b : Option ℕ) (e l : Option EndedReason) (r s : Option ℕ)
    → Stays f g
    → Stays a b
    → Stays e l
    → Stays r s
    → rank_of f a e r ≤ rank_of g b l s
unfolding rank_of
rank_of_mono (some x) g a b e l r s h i j k = rw h (omega arith)
rank_of_mono none g none b e l r s h i j k = omega arith
rank_of_mono none (some y) (some at) b (some x) l r s h i j k = omega arith
rank_of_mono none none (some at) b (some x) l r s h i j k = rw (i, j) (omega arith)
rank_of_mono none (some y) (some at) b none l (some q) s h i j k = omega arith
rank_of_mono none none (some at) b none (some x) (some q) s h i j k = rw i (omega arith)
rank_of_mono none none (some at) b none none (some q) s h i j k = rw (i, k) (omega arith)
rank_of_mono none (some y) (some at) b none l none s h i j k = omega arith
rank_of_mono none none (some at) b none (some x) none s h i j k = rw i (omega arith)
rank_of_mono none none (some at) b none none none none h i j k = rw i (omega arith)
rank_of_mono none none (some at) b none none none (some q) h i j k = rw i (omega arith)

-- A first run is never shown at an earlier stage than before, whenever it is looked at: from not armed to
-- watched, read, ended, and to its finding, if what was recorded of it stays recorded and a run that is
-- over stays as it ended.
pub stage_rank-reduce_stage_mono :
    (earlier later : StagePersistedFacts) (then_ms now_ms : ℕ)
    → IsLater earlier later
    → stage_rank (reduce_stage earlier then_ms) ≤ stage_rank (reduce_stage later now_ms)
stage_rank-reduce_stage_mono earlier later then_ms now_ms h =
    rw (rank-reduce_stage earlier then_ms, rank-reduce_stage later now_ms)
      (rank_of_mono earlier.finding later.finding earlier.armed_at later.armed_at
        (ended_reason_for earlier.run_status earlier.run_outcome)
        (ended_reason_for later.run_status later.run_outcome) earlier.reading_at later.reading_at
        h.finding h.armed
        (Stays-ended_reason_for earlier.run_status later.run_status earlier.run_outcome
          later.run_outcome h.run h.outcome)
        h.reading)
