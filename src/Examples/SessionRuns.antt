-- ===== src/Examples/SessionRuns.antt =====
-- Small sessions: what excludes them, the keys and the accounts that they have, and their steps.
use growthmind.Prelude.{
  text_eq, trim_end, trim_start, ℕ, ◌≡◌, ◌≢◌, ◌↔◌, ◌⊎◌, refl, Text, text, Bool, true, false, Option,
  none, some, List, [], ◌∷◌, ◌++◌, length, Any, is_empty, if◌then◌else◌, trim,
}
use growthmind.Doubles.{fractions}
use growthmind.Counts.{automation_headless}
use growthmind.Detect.Types.{SessionTimeline}
use growthmind.Exclusions.Automation.{matches_token}
use growthmind.Exclusions.Classify.{
  SessionFacts, ExclusionRuleSet, unresolved, trimmed_or_empty, classify_exclusion,
}
use growthmind.Exclusions.Classify.Laws.{is_automation, Fires, classify_exclusion_automation}
use growthmind.Sessions.Grouping.{GroupableSessionFact}
use growthmind.Spine.Steps.{walks_reaching, build_step_spine}
use growthmind.Spine.Steps.Laws.{IsSpine, build_step_spine-IsSpine}
use growthmind.Divergence.Compute.{
  DivergenceCohortInput, DivergenceOptions, diverged, compute_divergence,
}
use growthmind.Divergence.Compute.Laws.{IsFirstGap, IsLargeEnough, compute_divergence-diverged}
use growthmind.Divergence.Cuts.{same_browser, browser_of, same_device, device_of, cohort_cuts_of}
use growthmind.Divergence.Cuts.Laws.{cuts_by, cohort_cuts_of-eq-cuts_by}
use growthmind.CohortCuts.Classify.{
  browser_families, device_types, surface_cut, browser_cut, device_cut,
}
use growthmind.Examples.DetectRuns.{cart, event, session, paying}
use growthmind.Examples.FindingRuns.{small_platform}

-- The words of an agent, in lower case.
abbrev agent : Text
agent = text "mozilla/5.0 headlesschrome/120"

abbrev crawled : SessionFacts
crawled = record {
  identity_email_domain = some (text "shop.example");
  identity_resolution = unresolved;
  internal_domain = some (text "shop.example");
  user_agent = some agent;
}

abbrev few_rules : ExclusionRuleSet
few_rules = record {
  version = 1;
  free_mail_domains = [];
  headless_tokens = text "headlesschrome" ∷ [];
  known_agent_tokens = text "gptbot" ∷ [];
  coding_agent_tokens = [];
}

-- The team's own session is stamped as automation all the same.
crawled_is_headless : classify_exclusion small_platform crawled few_rules ≡ automation_headless
unfolding classify_exclusion matches_token trim_start trim_end text_eq
    growthmind.Exclusions.Automation.token_from growthmind.Prelude.starts_with
crawled_is_headless = refl

classify_exclusion_automation_example :
    (is_automation (classify_exclusion small_platform crawled few_rules) ≡ true) ↔ (
      (is_empty (trimmed_or_empty crawled.user_agent) ≡ false)
      × (Any (Fires small_platform (trimmed_or_empty crawled.user_agent)) few_rules.headless_tokens
          ⊎ (Any
                (Fires small_platform (trimmed_or_empty crawled.user_agent))
                few_rules.known_agent_tokens
              ⊎ Any
                  (Fires small_platform (trimmed_or_empty crawled.user_agent))
                  few_rules.coding_agent_tokens)))
classify_exclusion_automation_example =
    classify_exclusion_automation small_platform crawled few_rules (refl, tt) (refl, tt) tt

abbrev at_domain : Text → ℕ → GroupableSessionFact
at_domain domain at = record { identity_email_domain = domain; started_at = at }

abbrev mailed : List GroupableSessionFact
mailed =
    at_domain (text "a.example") 10
    ∷ at_domain (text "gmail.com") 20
    ∷ at_domain (text "b.example") 30
    ∷ at_domain (text "a.example") 25
    ∷ []

-- Two sessions that pay and two that stay at the cart.
abbrev staying : SessionTimeline
staying = session (text "s2") (event (text "e5") (text "open") 500 (some cart) ∷ [])

abbrev cohort : DivergenceCohortInput
cohort = record {
  surface = cart;
  succeeded = paying ∷ paying ∷ [];
  failed = staying ∷ staying ∷ [];
}

abbrev small_cohorts : DivergenceOptions
small_cohorts = record {
  cohort_floor = some 2;
  margin_percent = none;
  min_reach_ratio_percent = none;
}

build_step_spine-IsSpine_example :
    IsSpine 50
      (length (walks_reaching (cohort.succeeded ++ cohort.failed) cart))
      cart
      (build_step_spine (cohort.succeeded ++ cohort.failed) cart none).steps
build_step_spine-IsSpine_example =
    build_step_spine-IsSpine (cohort.succeeded ++ cohort.failed) cart none

stays_behind : compute_divergence fractions cohort small_cohorts ≡ diverged 1
unfolding compute_divergence build_step_spine growthmind.Spine.Steps.place_session
stays_behind = refl

compute_divergence-diverged_example :
    IsLargeEnough cohort 2
    × IsFirstGap fractions
        (build_step_spine (cohort.succeeded ++ cohort.failed) cart none)
        cohort
        20
        1
        (build_step_spine (cohort.succeeded ++ cohort.failed) cart none).steps
compute_divergence-diverged_example =
    compute_divergence-diverged fractions cohort small_cohorts stays_behind

cohort_cuts_of-eq-cuts_by_example :
    cohort_cuts_of cohort.succeeded cohort.failed
    ≡ record { cut = surface_cut; succeeded = cohort.succeeded; failed = cohort.failed }
      ∷ (cuts_by same_browser browser_of browser_families browser_cut cohort.succeeded cohort.failed
          ++ cuts_by same_device device_of device_types device_cut cohort.succeeded cohort.failed)
cohort_cuts_of-eq-cuts_by_example = cohort_cuts_of-eq-cuts_by cohort.succeeded cohort.failed
