-- ===== src/Detect/ErrorEvent/Total.antt =====
-- packages/core/src/detect/error-event.ts: the counts of the error detector.
use growthmind.Prelude.{
  ℕ, refl, Text, List, [], ◌∷◌, filter, length, All, arith, Returns, bind_total, traverse_total,
  AllValues,
}
use growthmind.Rules.{ThresholdRuleSet}
use growthmind.Detect.Types.{DetectorCorpus, DetectorCoverage}
use growthmind.Detect.Analysed.{analysed_sessions}
use growthmind.Detect.Corpus.{IsSound, count_of_total}
use growthmind.Detect.ErrorEvent.{
  DraftSignal, draft_correlated, draft_uncorrelated, SurfaceGroup, finished_signal, candidate_of,
  affects_enough, collect_sessions, detect_error_event,
}
use growthmind.Detect.ErrorEvent.Sizes.{GroupWithin, collect_sessions-GroupWithin}

module _ (corpus : DetectorCorpus) (sound : IsSound corpus) where
  abbrev kept_size : ℕ
  kept_size = length (analysed_sessions corpus).kept

  finished_signals_total :
      (group : SurfaceGroup) (drafts : List DraftSignal)
      → GroupWithin kept_size group
      → All (λ d. Returns (finished_signal corpus group d)) drafts
  unfolding finished_signal
  finished_signals_total group [] h = tt
  finished_signals_total group (draft_correlated _ _ _ _ ∷ ds) h = (
    bind_total _ _ (count_of_total corpus _ sound h.correlated_within) (λ c. (_, refl)),
    finished_signals_total group ds h,
  )
  finished_signals_total group (draft_uncorrelated _ _ ∷ ds) h =
      ((_, refl), finished_signals_total group ds h)

  candidate_of_total :
      (coverage : DetectorCoverage) (surface : Text) (group : SurfaceGroup)
      → GroupWithin kept_size group
      → Returns (candidate_of corpus coverage (surface, group))
  unfolding candidate_of
  candidate_of_total coverage surface group h =
      bind_total _ _
        (traverse_total (finished_signal corpus group) group.signals
          (finished_signals_total group group.signals h))
        (λ signals.
          bind_total _ _ (count_of_total corpus _ sound h.affected_within) (λ c. (_, refl)))

  candidates_total :
      (rules : ThresholdRuleSet) (coverage : DetectorCoverage) (groups : List (Text × SurfaceGroup))
      → AllValues (GroupWithin kept_size) groups
      → All (λ e. Returns (candidate_of corpus coverage e)) (filter (affects_enough rules) groups)
  candidates_total rules coverage [] h = tt
  candidates_total rules coverage ((surface, group) ∷ groups) h = ground (
    arith,
    candidate_of_total coverage surface group h.0,
    candidates_total rules coverage groups h.1,
  )

  -- On a corpus whose basis accounts for its window and counts the sessions kept, the error
  -- detector returns a result: no count that it builds is refused.
  pub detect_error_event_total :
      (rules : ThresholdRuleSet) → Returns (detect_error_event corpus rules)
  unfolding detect_error_event
  detect_error_event_total rules =
      let analysed = analysed_sessions corpus in
      bind_total _ _
        (traverse_total (candidate_of corpus analysed.coverage) _ (
          candidates_total rules analysed.coverage (collect_sessions analysed.kept rules [])
            (collect_sessions-GroupWithin 0 analysed.kept rules [] kept_size (omega arith) tt)))
        (λ candidates. (_, refl))
