-- ===== src/Detect/Funnel.antt =====
-- packages/core/src/detect/funnel-dropoff-cohorts.ts and funnel-dropoff.ts: pages that many sessions
-- reach and few leave for where others go.
pub mod Members
pub mod Laws
pub mod Total
use growthmind.Prelude.{
  ℕ, ◌*◌, max, Text, text_eq, Bool, true, false, not, ◌&&◌, Option, none, some, List, [], ◌∷◌, ◌++◌,
  map, filter, any, length, is_empty, ltb, leb, if◌then◌else◌, ◌>>=◌, traverse,
}
use growthmind.Counts.{MeasuredCount, measured_count, sessions, percent_scale}
use growthmind.Rules.{
  ThresholdRuleSet, DetectorName, funnel_dropoff, DetectorProposedClass, proposes_confusing,
}
use growthmind.Evidence.Signals.{EvidenceSignal, struggle, repeated_attempt}
use growthmind.Detect.Types.{
  SessionTimeline, DetectorCorpus, DetectorCandidate, DetectorCoverage, DetectorResult,
  surface_subject,
}
use growthmind.Detect.Analysed.{analysed_sessions}
use growthmind.Spine.Walk.{session_walk, transitions_of, surface_normalisation_version_of}

pub record FunnelDropoffCohort : Type 0 where
  pub origin : Text
  pub succeeded : List SessionTimeline
  pub failed : List SessionTimeline

pub record WalkedSession : Type 0 where
  pub session : SessionTimeline
  pub walk : List Text

abbrev pub walked : SessionTimeline → WalkedSession
walked session = record { session = session; walk = session_walk session }

abbrev pub includes_page : List Text → Text → Bool
includes_page walk page = any walk (λ p. text_eq p page)

-- `walk.slice(walk.indexOf(origin) + 1)`, of a walk that has the origin.
unfoldable pub after_first_visit : Text → List Text → List Text
after_first_visit origin [] = []
after_first_visit origin (path ∷ walk) =
    let rest = after_first_visit origin walk in if text_eq path origin then walk else rest

abbrev pub fails : Text → List Text → WalkedSession → Bool
fails origin destinations entry =
    not (any (after_first_visit origin entry.walk) (includes_page destinations))

abbrev pub at_origin : Text → List WalkedSession → List WalkedSession
at_origin origin entries = filter (λ (e : WalkedSession). includes_page e.walk origin) entries

-- The rates are compared as products, in whole numbers.
abbrev pub is_dropoff : ThresholdRuleSet → ℕ → ℕ → Bool
is_dropoff rules failed at =
    leb rules.funnel_min_sessions_at_origin at
    && (leb rules.funnel_min_dropoff_sessions failed
        && leb (rules.funnel_dropoff_rate_threshold_percent * at) (failed * percent_scale))

-- The body of the loop over the transitions, for one origin; `none` is `continue`. A session is
-- itself, so the members of `failedSet` are those that fail.
unfoldable pub cohort_at :
    ThresholdRuleSet → List WalkedSession → Text → List Text → Option FunnelDropoffCohort
unfolding after_first_visit text_eq
cohort_at rules entries origin raw_destinations =
    let destinations = filter (λ d. not (text_eq d origin)) raw_destinations in
    let here = at_origin origin entries in
    let failed = filter (fails origin destinations) here in
    let succeeded = filter (λ e. not (fails origin destinations e)) here in
    if is_empty destinations
    then none
    else if is_dropoff rules (length failed) (length here)
    then some (record {
      origin = origin;
      succeeded = map (λ (e : WalkedSession). e.session) succeeded;
      failed = map (λ (e : WalkedSession). e.session) failed;
    })
    else none

abbrev pub push_found : {A : Type 0} → Option A → List A → List A
push_found none found = found
push_found (some a) found = a ∷ found

unfoldable pub cohorts_of :
    ThresholdRuleSet → List WalkedSession → List (Text × List Text) → List FunnelDropoffCohort
unfolding cohort_at
cohorts_of rules entries [] = []
cohorts_of rules entries ((origin, raw_destinations) ∷ rest) =
    push_found (cohort_at rules entries origin raw_destinations) (cohorts_of rules entries rest)

unfoldable pub funnel_dropoff_cohorts : DetectorCorpus → ThresholdRuleSet → List FunnelDropoffCohort
unfolding cohorts_of transitions_of analysed_sessions session_walk
funnel_dropoff_cohorts corpus rules =
    let entries = map walked (analysed_sessions corpus).kept in
    cohorts_of rules entries (transitions_of (map (λ (e : WalkedSession). e.walk) entries))

-- `sessionWalk(session).filter((path) => path === origin).length`
abbrev pub visits_of : Text → SessionTimeline → ℕ
visits_of origin session = length (filter (λ p. text_eq p origin) (session_walk session))

-- `Math.max(...visits)`; of no visits it is -Infinity, and no count is at most that.
abbrev pub largest : List ℕ → Option ℕ
largest [] = none
largest (v ∷ vs) = elim (largest vs) [ none ↦ some v | some m ↦ some (max v m) ]

-- `countOf`: `none` is the ZodError that `measuredCount` throws.
abbrev pub count_of : DetectorCorpus → ℕ → Option MeasuredCount
count_of corpus numerator = measured_count (record {
  numerator = numerator;
  denominator = corpus.basis.kept;
  unit = sessions;
  timeframe = corpus.window;
  basis = corpus.basis;
})

abbrev pub attempt_signals :
    DetectorCorpus → ThresholdRuleSet → Text → List ℕ → Option ℕ → Option (List EvidenceSignal)
attempt_signals corpus rules origin visits none = some []
attempt_signals corpus rules origin visits (some attempts) =
    let struggling = length (filter (leb rules.struggle_repeated_attempt_min) visits) in
    if leb rules.struggle_repeated_attempt_min attempts
    then count_of corpus struggling
      >>= (λ c. some (struggle repeated_attempt origin attempts c ∷ []))
    else some []

unfoldable pub cohort_candidate :
    DetectorCorpus
    → ThresholdRuleSet
    → List SessionTimeline
    → DetectorCoverage
    → FunnelDropoffCohort
    → Option DetectorCandidate
unfolding measured_count surface_normalisation_version_of session_walk text_eq
cohort_candidate corpus rules kept coverage cohort =
    let here = cohort.succeeded ++ cohort.failed in
    let visits = map (visits_of cohort.origin) here in
    do
      signals ← attempt_signals corpus rules cohort.origin visits (largest visits)
      reached ← count_of corpus (length here)
      lost ← count_of corpus (length cohort.failed)
      some (record {
        detector = funnel_dropoff;
        claimed_class = proposes_confusing;
        claim_subject = surface_subject;
        surface = cohort.origin;
        surface_normalisation_version = surface_normalisation_version_of kept cohort.origin;
        signals = signals;
        counts = reached ∷ lost ∷ [];
        timeframe = corpus.window;
        coverage = coverage;
      })

unfoldable pub detect_funnel_dropoff : DetectorCorpus → ThresholdRuleSet → Option DetectorResult
unfolding cohort_candidate funnel_dropoff_cohorts traverse analysed_sessions
detect_funnel_dropoff corpus rules =
    let analysed = analysed_sessions corpus in
    do
      candidates ←
          traverse (cohort_candidate corpus rules analysed.kept analysed.coverage)
            (funnel_dropoff_cohorts corpus rules)
      some (record {
        detector = funnel_dropoff;
        connection_state = corpus.connection_state;
        coverage = analysed.coverage;
        candidates = candidates;
      })
