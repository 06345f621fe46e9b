-- ===== src/Divergence/Compute/Laws.antt =====
-- packages/core/src/divergence/divergence.ts: the rank of a divergence.
use growthmind.Prelude.{
  ℕ, ◌≤◌, ◌≡◌, refl, ap, sym, subst, Text, Bool, true, false, ◌&&◌, ◌||◌, Option, none, some, List,
  [], ◌∷◌, ◌++◌, All, Any, All-map, map, filter, all, find?, length, ltb, ◌==◌, if◌then◌else◌,
  arith, Bool-cases, inl, inr,
}
use growthmind.Doubles.{Doubles}
use growthmind.Spine.Steps.{
  SpineStep, StepSpine, build_step_spine, or_default, walks_reaching, spine_min_reach_ratio_percent,
}
use growthmind.Spine.Steps.Laws.{IsContiguous, IsSpine, build_step_spine-IsSpine}
use growthmind.Divergence.Compute.{
  DivergenceResult, diverged, no_divergence, single_rank_spine, identical_cohorts, refused,
  DivergenceCohortInput, DivergenceOptions, RankGap, gap_at, rank_gaps, is_gap, is_identical,
  diverged_at, divergence_on, compute_divergence, divergence_cohort_floor,
  divergence_margin_percent,
}

contiguous-le :
    (rank : ℕ) (steps : List SpineStep)
    → IsContiguous rank steps
    → All (λ (s : SpineStep). rank ≤ s.index) steps
contiguous-le rank [] h = tt
contiguous-le rank (step ∷ steps) h =
    let here : rank ≤ step.index = ground arith in
    (
      here,
      All-map (λ (s : SpineStep). step.index ≤ s.index) (λ (s : SpineStep). rank ≤ s.index) steps
          (λ s le. omega arith) (contiguous-le step.index steps h.1),
    )

not_below : (i r : ℕ) (b : Bool) → r ≤ i → (ltb i r && b) ≡ false
not_below i r b h = ground arith

module _ (D : Doubles) (spine : StepSpine) (input : DivergenceCohortInput) (margin : ℕ) where
  -- A step behind the page that fewer of the failed sessions reach, by the margin or more.
  abbrev pub opens_gap : SpineStep → Bool
  opens_gap step = ltb 0 step.index && is_gap D margin (gap_at D spine input step)

  abbrev pub gaps : List SpineStep → List (RankGap D)
  gaps steps = map (gap_at D spine input) (filter (λ (step : SpineStep). ltb 0 step.index) steps)

  -- The rank is that of a step that opens a gap, and no step of a lower rank does.
  abbrev pub IsFirstGap : ℕ → List SpineStep → Type 0
  IsFirstGap r steps =
      Any (λ (s : SpineStep). (s.index ≡ r) × (opens_gap s ≡ true)) steps
      × All (λ (s : SpineStep). (ltb s.index r && opens_gap s) ≡ false) steps

  first_here :
      (rank : ℕ) (step : SpineStep) (steps : List SpineStep) {r : ℕ}
      → IsContiguous rank (step ∷ steps)
      → opens_gap step ≡ true
      → step.index ≡ r
      → IsFirstGap r (step ∷ steps)
  first_here rank step steps {r} h opens same_rank = (
    inl (same_rank, opens),
    (
      rw opens (ground arith),
      All-map (λ (s : SpineStep). step.index ≤ s.index)
          (λ (s : SpineStep). (ltb s.index r && opens_gap s) ≡ false) steps
          (λ s le. not_below s.index r (opens_gap s) (omega (arith, same_rank)))
          (contiguous-le step.index steps h.1),
    ),
  )

  abbrev rank_or_nought : Option (RankGap D) → ℕ
  rank_or_nought none = 0
  rank_or_nought (some g) = g.rank

  the_gap :
      (step : SpineStep) (steps : List SpineStep) {g : RankGap D}
      → ltb 0 step.index ≡ true
      → is_gap D margin (gap_at D spine input step) ≡ true
      → find? (is_gap D margin) (gaps (step ∷ steps)) ≡ some g
      → some (gap_at D spine input step) ≡ some g
  the_gap step steps pos gap e = rw (pos, gap) at e

  find?-IsFirstGap :
      (rank : ℕ) (steps : List SpineStep) {g : RankGap D}
      → IsContiguous rank steps
      → find? (is_gap D margin) (gaps steps) ≡ some g
      → IsFirstGap g.rank steps
  find?-IsFirstGap rank [] h e = cc
  find?-IsFirstGap rank (step ∷ steps) {g} h e = elim (Bool-cases (ltb 0 step.index)) [
    | inr origin ↦
        let (found, earlier) = find?-IsFirstGap step.index steps h.1 (rw origin at e) in
        (inr found, (rw origin (ground arith), earlier))
    | inl pos ↦ elim (Bool-cases (is_gap D margin (gap_at D spine input step))) [
      | inl gap ↦
          first_here rank step steps h (rw pos gap)
            (ap rank_or_nought (the_gap step steps pos gap e))
      | inr closed ↦
          let (found, earlier) = find?-IsFirstGap step.index steps h.1 (rw (pos, closed) at e) in
          (inr found, (rw (pos, closed) (ground arith), earlier))
    ]
  ]

-- Both cohorts have the size that is asked for.
abbrev pub IsLargeEnough : DivergenceCohortInput → ℕ → Type 0
IsLargeEnough input floor = (floor ≤ length input.succeeded) × (floor ≤ length input.failed)

module _ (D : Doubles) where
  picked :
      (single identical : Bool) (o : Option (RankGap D)) {r : ℕ}
      → (if single
          then no_divergence single_rank_spine
          else if identical
          then no_divergence identical_cohorts
          else diverged_at D o)
        ≡ diverged r
      → (g : RankGap D) × (o ≡ some g) × (g.rank ≡ r)
  picked true identical o e = cc
  picked false true o e = cc
  picked false false none e = cc
  picked false false (some g) e = (g, refl, ground arith)

  divergence_on-diverged :
      (spine : StepSpine) (input : DivergenceCohortInput) (margin : ℕ) {r : ℕ}
      → IsContiguous 0 spine.steps
      → divergence_on D spine input margin ≡ diverged r
      → IsFirstGap D spine input margin r spine.steps
  unfolding divergence_on rank_gaps
  divergence_on-diverged spine input margin {r} h e =
      let (g, found, same_rank) =
        picked (length spine.steps == 1)
          (all (gaps D spine input margin spine.steps) (is_identical D))
          (find? (is_gap D margin) (gaps D spine input margin spine.steps)) e in
      subst (λ rank. IsFirstGap D spine input margin rank spine.steps) same_rank
        (find?-IsFirstGap D spine input margin 0 spine.steps h found)

large_enough :
    (m n floor : ℕ) (result : DivergenceResult) {r : ℕ}
    → (if ltb m floor || ltb n floor then refused else result) ≡ diverged r
    → ((floor ≤ m) × (floor ≤ n)) × (result ≡ diverged r)
large_enough m n floor result h = ground arith

-- The steps of a spine, the page's own included, have contiguous ranks.
spine-IsContiguous :
    (min_percent walks : ℕ) (surface : Text) (steps : List SpineStep)
    → IsSpine min_percent walks surface steps
    → IsContiguous 0 steps
spine-IsContiguous min_percent walks surface [] h = absurd h
spine-IsContiguous min_percent walks surface (origin ∷ steps) h = (
  inl (ap (λ (s : SpineStep). s.index) h.0),
  subst (λ (s : SpineStep). IsContiguous s.index steps) (sym h.0) h.1,
)

module _ (D : Doubles) where
  -- Sessions diverge only if both cohorts have the size that is asked for, and then at the lowest rank
  -- behind the page that fewer of the failed sessions reach, by the margin or more.
  pub compute_divergence-diverged :
      (input : DivergenceCohortInput) (options : DivergenceOptions) {r : ℕ}
      → compute_divergence D input options ≡ diverged r
      → IsLargeEnough input (or_default options.cohort_floor divergence_cohort_floor)
        × IsFirstGap D
            (build_step_spine
              (input.succeeded ++ input.failed)
              input.surface
              options.min_reach_ratio_percent)
            input
            (or_default options.margin_percent divergence_margin_percent)
            r
            (build_step_spine
              (input.succeeded ++ input.failed)
              input.surface
              options.min_reach_ratio_percent).steps
  unfolding compute_divergence
  compute_divergence-diverged input options {r} e =
      let floor = or_default options.cohort_floor divergence_cohort_floor in
      let margin = or_default options.margin_percent divergence_margin_percent in
      let sessions = input.succeeded ++ input.failed in
      let spine = build_step_spine sessions input.surface options.min_reach_ratio_percent in
      let (large, e') =
        large_enough (length input.succeeded) (length input.failed) floor
          (divergence_on D spine input margin) e in
      (
        large,
        divergence_on-diverged D spine input margin
            (spine-IsContiguous
              (or_default options.min_reach_ratio_percent spine_min_reach_ratio_percent)
              (length (walks_reaching sessions input.surface)) input.surface spine.steps
              (build_step_spine-IsSpine sessions input.surface options.min_reach_ratio_percent))
            e',
      )
