-- ===== src/Detect/Funnel/Total.antt =====
-- packages/core/src/detect/funnel-dropoff.ts: the counts of the funnel detector.
use growthmind.Prelude.{
  ℕ, ◌+◌, ◌≤◌, refl, Text, Option, none, some, List, [], ◌++◌, map, filter, length, All-map,
  length-map, length-filter-le, length-append, arith, leb, Returns, bind_total, if_total,
  traverse_total,
}
use growthmind.Rules.{ThresholdRuleSet}
use growthmind.Detect.Types.{SessionTimeline, DetectorCorpus, DetectorCoverage}
use growthmind.Detect.Analysed.{analysed_sessions}
use growthmind.Spine.Walk.{session_walk}
use growthmind.Detect.Corpus.{IsSound, count_of_total}
use growthmind.Detect.Funnel.{
  FunnelDropoffCohort, cohort_candidate, detect_funnel_dropoff, attempt_signals, largest, visits_of,
  includes_page, funnel_dropoff_cohorts,
}
use growthmind.Detect.Funnel.Laws.{IsCohort, funnel_dropoff_cohorts-IsCohort}

attempt_signals_total :
    (corpus : DetectorCorpus) (rules : ThresholdRuleSet) (origin : Text) (visits : List ℕ)
    (attempts : Option ℕ)
    → IsSound corpus
    → length visits ≤ length (analysed_sessions corpus).kept
    → Returns (attempt_signals corpus rules origin visits attempts)
attempt_signals_total corpus rules origin visits none sound h = ([], refl)
attempt_signals_total corpus rules origin visits (some attempts) sound h =
    if_total (leb rules.struggle_repeated_attempt_min attempts) _ _
      (bind_total _ _ (count_of_total corpus _ sound struggling_few) (λ c. (_, refl))) ([], refl)
  where
    struggling_few :
        length (filter (leb rules.struggle_repeated_attempt_min) visits)
        ≤ length (analysed_sessions corpus).kept
    struggling_few =
        omega (arith, length-filter-le (leb rules.struggle_repeated_attempt_min) visits)

cohort_few :
    (rules : ThresholdRuleSet) (kept : List SessionTimeline) (c : FunnelDropoffCohort)
    → IsCohort rules kept c
    → length c.failed + length c.succeeded ≤ length kept
cohort_few rules kept c h =
    omega
      (arith, h.sizes.splits, length-filter-le (λ s. includes_page (session_walk s) c.origin) kept)

cohort_candidate_total :
    (corpus : DetectorCorpus) (rules : ThresholdRuleSet) (coverage : DetectorCoverage)
    (c : FunnelDropoffCohort)
    → IsSound corpus
    → IsCohort rules (analysed_sessions corpus).kept c
    → Returns (cohort_candidate corpus rules (analysed_sessions corpus).kept coverage c)
unfolding cohort_candidate
cohort_candidate_total corpus rules coverage c sound h =
    let few = cohort_few rules (analysed_sessions corpus).kept c h in
    let here : List SessionTimeline = c.succeeded ++ c.failed in
    let size = length-append c.succeeded c.failed in
    let visits : List ℕ = map (visits_of c.origin) here in
    let signals =
      attempt_signals_total corpus rules c.origin visits (largest visits) sound
        (omega (arith, length-map (visits_of c.origin) here)) in
    let reached = count_of_total corpus (length here) sound (omega arith) in
    let lost = count_of_total corpus (length c.failed) sound (omega arith) in
    bind_total _ _ signals (λ s. bind_total _ _ reached (λ r. bind_total _ _ lost (λ l. (_, refl))))

-- On a corpus whose basis accounts for its window and counts the sessions kept, the funnel detector
-- returns a result: no count that it builds is refused.
pub detect_funnel_dropoff_total :
    (corpus : DetectorCorpus) (rules : ThresholdRuleSet)
    → IsSound corpus
    → Returns (detect_funnel_dropoff corpus rules)
unfolding detect_funnel_dropoff
detect_funnel_dropoff_total corpus rules sound =
    let analysed = analysed_sessions corpus in
    bind_total _ _
      (traverse_total (cohort_candidate corpus rules analysed.kept analysed.coverage)
        (funnel_dropoff_cohorts corpus rules)
        (All-map (IsCohort rules analysed.kept) _ (funnel_dropoff_cohorts corpus rules)
          (λ c h. cohort_candidate_total corpus rules analysed.coverage c sound h)
          (funnel_dropoff_cohorts-IsCohort corpus rules)))
      (λ candidates. (_, refl))
