-- ===== src/Divergence/Compute.antt =====
-- packages/core/src/divergence/divergence.ts, types.ts, grade.ts, sample.ts: the first step of the spine
-- at which fewer of the failed sessions arrive. Rates are IEEE doubles, a parameter.
pub mod Laws
use growthmind.Prelude.{
  ℕ, Text, Bool, true, false, not, ◌||◌, Option, none, some, List, [], ◌∷◌, ◌++◌, map, filter, any,
  all, length, find?, take, to_sorted, Sign, compare_numbers, compare_texts, ◌then_by◌, ltb, ◌==◌,
  if◌then◌else◌,
}
use growthmind.Doubles.{Doubles}
use growthmind.Counts.{percent_scale}
use growthmind.Detect.Types.{SessionTimeline}
use growthmind.Spine.Steps.{
  SpineStep, StepSpine, SessionPlacement, build_step_spine, place_on_spine, or_default,
}

pub data NoDivergenceReason : Type 0 where
  identical_cohorts single_rank_spine no_gap_found : NoDivergenceReason

pub data DivergenceResult : Type 0 where
  diverged : (rank : ℕ) → DivergenceResult
  no_divergence : NoDivergenceReason → DivergenceResult
  -- The reason is always cohort_below_floor.
  refused : DivergenceResult

pub data DivergenceGrade : Type 0 where
  explained described : DivergenceGrade

pub record DivergenceCohortInput : Type 0 where
  pub surface : Text
  pub succeeded : List SessionTimeline
  pub failed : List SessionTimeline

pub record DivergenceOptions : Type 0 where
  pub cohort_floor : Option ℕ
  pub margin_percent : Option ℕ
  pub min_reach_ratio_percent : Option ℕ

abbrev pub divergence_cohort_floor : ℕ
divergence_cohort_floor = 5

abbrev pub divergence_margin_percent : ℕ
divergence_margin_percent = 20

abbrev pub divergence_anchor_session_limit : ℕ
divergence_anchor_session_limit = 50

abbrev pub grade_of : DivergenceResult → DivergenceGrade
grade_of (diverged rank) = explained
grade_of (no_divergence reason) = described
grade_of refused = described

abbrev pub reached_at : List SessionPlacement → ℕ → ℕ
reached_at placements rank =
    length
      (filter (λ (p : SessionPlacement). any p.visited_indexes (λ index. index == rank)) placements)

module _ (D : Doubles) where
  open D use {Double, of_ℕ, div, sub, eqb, le}

  pub record RankGap : Type 0 where
    pub rank : ℕ
    pub succeeded_reach_rate : Double
    pub failed_reach_rate : Double

  abbrev pub reach_rate_at : List SessionPlacement → ℕ → ℕ → Double
  reach_rate_at placements rank denominator =
      if denominator == 0
      then of_ℕ 0
      else div (of_ℕ (reached_at placements rank)) (of_ℕ denominator)

  abbrev pub gap_at : StepSpine → DivergenceCohortInput → SpineStep → RankGap
  gap_at spine input step = record {
    rank = step.index;
    succeeded_reach_rate =
        reach_rate_at (place_on_spine spine input.succeeded) step.index (length input.succeeded);
    failed_reach_rate =
        reach_rate_at (place_on_spine spine input.failed) step.index (length input.failed);
  }

  unfoldable pub rank_gaps : StepSpine → DivergenceCohortInput → List RankGap
  rank_gaps spine input =
      map (gap_at spine input) (filter (λ (step : SpineStep). ltb 0 step.index) spine.steps)

  abbrev pub is_gap : ℕ → RankGap → Bool
  is_gap margin gap =
      le (div (of_ℕ margin) (of_ℕ percent_scale))
        (sub gap.succeeded_reach_rate gap.failed_reach_rate)

  abbrev pub is_identical : RankGap → Bool
  is_identical gap = eqb gap.succeeded_reach_rate gap.failed_reach_rate

  abbrev pub diverged_at : Option RankGap → DivergenceResult
  diverged_at none = no_divergence no_gap_found
  diverged_at (some gap) = diverged gap.rank

  unfoldable pub divergence_on : StepSpine → DivergenceCohortInput → ℕ → DivergenceResult
  unfolding rank_gaps
  divergence_on spine input margin =
      if length spine.steps == 1
      then no_divergence single_rank_spine
      else if all (rank_gaps spine input) is_identical
      then no_divergence identical_cohorts
      else diverged_at (find? (is_gap margin) (rank_gaps spine input))

  unfoldable pub compute_divergence : DivergenceCohortInput → DivergenceOptions → DivergenceResult
  unfolding divergence_on
  compute_divergence input options =
      let floor = or_default options.cohort_floor divergence_cohort_floor in
      if ltb (length input.succeeded) floor || ltb (length input.failed) floor
      then refused
      else divergence_on
          (build_step_spine (input.succeeded ++ input.failed) input.surface
            options.min_reach_ratio_percent)
          input (or_default options.margin_percent divergence_margin_percent)

abbrev pub compare_sessions : SessionTimeline → SessionTimeline → Sign
compare_sessions left right =
    compare_numbers left.started_at right.started_at
    then_by compare_texts left.session_id right.session_id

unfoldable pub sample_session_ids : List SessionTimeline → ℕ → List Text
unfolding to_sorted compare_texts
sample_session_ids sessions limit =
    map (λ (s : SessionTimeline). s.session_id) (take limit (to_sorted compare_sessions sessions))
