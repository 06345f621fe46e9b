-- ===== src/Detect/Funnel/Laws.antt =====
-- packages/core/src/detect/funnel-dropoff-cohorts.ts: a drop-off cohort and its members.
use growthmind.Prelude.{
  ◌+◌, ◌*◌, ◌≤◌, ◌≡◌, refl, ◌∙◌, ap, Text, text_eq, Bool, true, not, ◌↔◌, mem-tail, Option, none,
  some, List, [], ◌∷◌, map, filter, length, All, length-map, length-filter-not, filter-map, arith,
}
use growthmind.Counts.{percent_scale}
use growthmind.Rules.{ThresholdRuleSet}
use growthmind.Detect.Types.{SessionTimeline, DetectorCorpus}
use growthmind.Detect.Analysed.{analysed_sessions}
use growthmind.Spine.Walk.{session_walk, transitions_of}
use growthmind.Detect.Funnel.Members.{GoesOn, goes_on, goes_on_iff}
use mathlib.Core.List.{Mem, mem-cons}
use mathlib.Core.Logic.Or
use growthmind.Detect.Funnel.{
  FunnelDropoffCohort, WalkedSession, walked, at_origin, fails, includes_page, cohort_at,
  cohorts_of, push_found, funnel_dropoff_cohorts,
}

-- The sessions whose walk has the page.
abbrev pub reaching : Text → List SessionTimeline → List SessionTimeline
reaching origin = filter (λ s. includes_page (session_walk s) origin)

-- The sizes of a cohort.
pub record IsSized (rules : ThresholdRuleSet) (kept : List SessionTimeline)
    (c : FunnelDropoffCohort) : Type 0 where
  pub splits : length c.failed + length c.succeeded ≡ length (reaching c.origin kept)
  pub enough_reached : rules.funnel_min_sessions_at_origin ≤ length c.failed + length c.succeeded
  pub enough_lost : rules.funnel_min_dropoff_sessions ≤ length c.failed
  pub rate_reached :
      rules.funnel_dropoff_rate_threshold_percent * (length c.failed + length c.succeeded)
      ≤ length c.failed * percent_scale

-- The sizes of a cohort and its members: `goes` tells the sessions that went on from those that left.
pub record IsCohort (rules : ThresholdRuleSet) (kept : List SessionTimeline)
    (c : FunnelDropoffCohort) : Type 0 where
  pub sizes : IsSized rules kept c
  pub destinations : List Text
  pub listed : Mem (c.origin, destinations) (transitions_of (map session_walk kept))
  pub goes : SessionTimeline → Bool
  pub goes_iff :
      (s : SessionTimeline) → (goes s ≡ true) ↔ GoesOn c.origin destinations (session_walk s)
  pub went_on : c.succeeded ≡ filter goes (reaching c.origin kept)
  pub left : c.failed ≡ filter (λ s. not (goes s)) (reaching c.origin kept)

length-at_origin :
    (origin : Text) (kept : List SessionTimeline)
    → length (at_origin origin (map walked kept)) ≡ length (reaching origin kept)
length-at_origin origin kept =
    ap length (filter-map walked (λ (e : WalkedSession). includes_page e.walk origin) kept)
    ∙ length-map walked (reaching origin kept)

cohort_at-IsSized :
    (rules : ThresholdRuleSet) (kept : List SessionTimeline) (origin : Text) (raw : List Text)
    {c : FunnelDropoffCohort}
    → cohort_at rules (map walked kept) origin raw ≡ some c
    → IsSized rules kept c
unfolding cohort_at
cohort_at-IsSized rules kept origin raw {c} h =
    let destinations : List Text = filter (λ d. not (text_eq d origin)) raw in
    let here : List WalkedSession = at_origin origin (map walked kept) in
    ground (
      arith,
      length-at_origin origin kept,
      length-filter-not (fails origin destinations) here,
      length-map (λ (e : WalkedSession). e.session) (filter (fails origin destinations) here),
      length-map (λ (e : WalkedSession). e.session)
          (filter (λ e. not (fails origin destinations e)) here),
    )

session-walked :
    (kept : List SessionTimeline) → map (λ (e : WalkedSession). e.session) (map walked kept) ≡ kept
session-walked [] = refl
session-walked (s ∷ kept) = ap (λ rest. s ∷ rest) (session-walked kept)

walk-walked :
    (kept : List SessionTimeline)
    → map (λ (e : WalkedSession). e.walk) (map walked kept) ≡ map session_walk kept
walk-walked [] = refl
walk-walked (s ∷ kept) = ap (λ rest. session_walk s ∷ rest) (walk-walked kept)

-- The sessions at a page that pass a test.
sessions_where :
    (p : WalkedSession → Bool) (origin : Text) (kept : List SessionTimeline)
    → map (λ (e : WalkedSession). e.session) (filter p (at_origin origin (map walked kept)))
      ≡ filter (λ s. p (walked s)) (reaching origin kept)
sessions_where p origin kept =
    ap (λ here. map (λ (e : WalkedSession). e.session) (filter p here))
      (filter-map walked (λ (e : WalkedSession). includes_page e.walk origin) kept)
    ∙ ap (map (λ (e : WalkedSession). e.session)) (filter-map walked p (reaching origin kept))
    ∙ session-walked (filter (λ s. p (walked s)) (reaching origin kept))

filter-not-not :
    (q : SessionTimeline → Bool) (xs : List SessionTimeline)
    → filter (λ s. not (not (q s))) xs ≡ filter q xs
filter-not-not q [] = refl
filter-not-not q (x ∷ xs) = ground (arith, filter-not-not q xs)

abbrev members_at : List SessionTimeline → Text → List Text → FunnelDropoffCohort
members_at kept origin raw =
    let destinations = filter (λ d. not (text_eq d origin)) raw in
    let here = at_origin origin (map walked kept) in
    record {
      origin = origin;
      succeeded =
          map (λ (e : WalkedSession). e.session)
            (filter (λ e. not (fails origin destinations e)) here);
      failed = map (λ (e : WalkedSession). e.session) (filter (fails origin destinations) here);
    }

cohort_at-made :
    (rules : ThresholdRuleSet) (kept : List SessionTimeline) (origin : Text) (raw : List Text)
    {c : FunnelDropoffCohort}
    → cohort_at rules (map walked kept) origin raw ≡ some c
    → members_at kept origin raw ≡ c
unfolding cohort_at
cohort_at-made rules kept origin raw {c} h = ground arith

members_at-IsCohort :
    (rules : ThresholdRuleSet) (kept : List SessionTimeline) (origin : Text) (raw : List Text)
    → IsSized rules kept (members_at kept origin raw)
    → Mem (origin, raw) (transitions_of (map session_walk kept))
    → IsCohort rules kept (members_at kept origin raw)
members_at-IsCohort rules kept origin raw sized listed =
    let destinations = filter (λ d. not (text_eq d origin)) raw in
    record {
      sizes = sized;
      destinations = raw;
      listed = listed;
      goes = λ s. goes_on origin raw (session_walk s);
      goes_iff = λ s. goes_on_iff origin raw (session_walk s);
      went_on =
          sessions_where (λ e. not (fails origin destinations e)) origin kept
          ∙ filter-not-not (λ s. goes_on origin raw (session_walk s)) (reaching origin kept);
      left = sessions_where (fails origin destinations) origin kept;
    }

All-push_found :
    {A : Type 0} (P : A → Type 0) (o : Option A) (found : List A)
    → ((a : A) → o ≡ some a → P a)
    → All P found
    → All P (push_found o found)
All-push_found P none found h hs = hs
All-push_found P (some a) found h hs = (h a refl, hs)

cohorts_of-IsCohort :
    (rules : ThresholdRuleSet) (kept : List SessionTimeline) (moves : List (Text × List Text))
    → ((move : Text × List Text)
        → Mem move moves
        → Mem move (transitions_of (map session_walk kept)))
    → All (IsCohort rules kept) (cohorts_of rules (map walked kept) moves)
unfolding cohorts_of
cohorts_of-IsCohort rules kept [] within = tt
cohorts_of-IsCohort rules kept ((origin, raw) ∷ rest) within =
    All-push_found (IsCohort rules kept) (cohort_at rules (map walked kept) origin raw)
      (cohorts_of rules (map walked kept) rest)
      (λ c h.
        let made = cohort_at-made rules kept origin raw {c = c} h in
        let sized = cohort_at-IsSized rules kept origin raw {c = c} h in
        rw (← made) (
          members_at-IsCohort rules kept origin raw (rw (← made) at sized)
            (within (origin, raw) (mem-cons.1 (Or.inl refl)))))
      (cohorts_of-IsCohort rules kept rest (λ move at. within move (mem-tail at)))

-- Each drop-off cohort splits the kept sessions that reached its page, in their order, into those whose
-- walk has after its first visit of that page a destination other than the page itself, and those whose
-- walk has none, where the destinations are the ones that the moves of the kept sessions list for that
-- page; and both the sizes and the rate reach the thresholds of the rules.
pub funnel_dropoff_cohorts-IsCohort :
    (corpus : DetectorCorpus) (rules : ThresholdRuleSet)
    → All (IsCohort rules (analysed_sessions corpus).kept) (funnel_dropoff_cohorts corpus rules)
unfolding funnel_dropoff_cohorts
funnel_dropoff_cohorts-IsCohort corpus rules =
    let kept = (analysed_sessions corpus).kept in
    cohorts_of-IsCohort rules kept
      (transitions_of (map (λ (e : WalkedSession). e.walk) (map walked kept)))
      (λ move at. rw (walk-walked kept) at at)
