-- ===== src/Divergence/Cuts.antt =====
-- packages/core/src/divergence/cuts.ts: the cohorts of a surface, by browser and by device.
pub mod Laws
use growthmind.Prelude.{
  Text, Bool, true, false, Option, none, some, List, [], ◌∷◌, ◌++◌, map, map_get, map_set,
  if◌then◌else◌,
}
use growthmind.Detect.Types.{
  BrowserFamily, safari, chrome, firefox, edge, other_browser, unknown_browser, DeviceType, mobile,
  tablet, desktop, unknown_device, SessionCohortCuts, SessionTimeline,
}
use growthmind.CohortCuts.Classify.{
  CohortCut, surface_cut, browser_cut, device_cut, browser_families, device_types,
}

pub record DivergenceCohortCut : Type 0 where
  pub cut : CohortCut
  pub succeeded : List SessionTimeline
  pub failed : List SessionTimeline

abbrev pub unknown_cuts : SessionCohortCuts
unknown_cuts = record { browser = unknown_browser; device = unknown_device }

abbrev pub or_unknown : Option SessionCohortCuts → SessionCohortCuts
or_unknown none = unknown_cuts
or_unknown (some cuts) = cuts

abbrev pub cuts_of : SessionTimeline → SessionCohortCuts
cuts_of session = or_unknown session.cohort_cuts

abbrev pub same_browser : BrowserFamily → BrowserFamily → Bool
same_browser safari safari = true
same_browser chrome chrome = true
same_browser firefox firefox = true
same_browser edge edge = true
same_browser other_browser other_browser = true
same_browser unknown_browser unknown_browser = true
same_browser _ _ = false

abbrev pub same_device : DeviceType → DeviceType → Bool
same_device mobile mobile = true
same_device tablet tablet = true
same_device desktop desktop = true
same_device unknown_device unknown_device = true
same_device _ _ = false

module _ {Key : Type 0} (same_key : Key → Key → Bool) (key_of : SessionCohortCuts → Key) where
  abbrev pub bucket_with : SessionTimeline → Option (List SessionTimeline) → List SessionTimeline
  bucket_with session none = session ∷ []
  bucket_with session (some bucket) = bucket ++ session ∷ []

  -- The loop over the sessions.
  unfoldable pub buckets_from :
      List SessionTimeline → List (Key × List SessionTimeline) → List (Key × List SessionTimeline)
  unfolding map_get map_set
  buckets_from [] buckets = buckets
  buckets_from (session ∷ sessions) buckets =
      let key = key_of (cuts_of session) in
      buckets_from sessions
        (map_set same_key key (bucket_with session (map_get same_key key buckets)) buckets)

  abbrev pub buckets_of : List SessionTimeline → List (Key × List SessionTimeline)
  buckets_of sessions = buckets_from sessions []

  abbrev pub cut_with :
      CohortCut
      → Option (List SessionTimeline)
      → Option (List SessionTimeline)
      → List DivergenceCohortCut
      → List DivergenceCohortCut
  cut_with cut none none cuts = cuts
  cut_with cut none (some failed) cuts =
      record { cut = cut; succeeded = []; failed = failed } ∷ cuts
  cut_with cut (some succeeded) none cuts =
      record { cut = cut; succeeded = succeeded; failed = [] } ∷ cuts
  cut_with cut (some succeeded) (some failed) cuts =
      record { cut = cut; succeeded = succeeded; failed = failed } ∷ cuts

  unfoldable pub axis_cuts :
      List Key
      → (Key → CohortCut)
      → List (Key × List SessionTimeline)
      → List (Key × List SessionTimeline)
      → List DivergenceCohortCut
  unfolding map_get
  axis_cuts [] cut_of succeeded failed = []
  axis_cuts (key ∷ order) cut_of succeeded failed =
      cut_with (cut_of key) (map_get same_key key succeeded) (map_get same_key key failed)
        (axis_cuts order cut_of succeeded failed)

abbrev pub browser_of : SessionCohortCuts → BrowserFamily
browser_of cuts = cuts.browser

abbrev pub device_of : SessionCohortCuts → DeviceType
device_of cuts = cuts.device

unfoldable pub cohort_cuts_of :
    List SessionTimeline → List SessionTimeline → List DivergenceCohortCut
cohort_cuts_of succeeded failed =
    record { cut = surface_cut; succeeded = succeeded; failed = failed }
    ∷ (axis_cuts same_browser browser_of browser_families browser_cut
          (buckets_of same_browser browser_of succeeded) (buckets_of same_browser browser_of failed)
        ++ axis_cuts same_device device_of device_types device_cut
            (buckets_of same_device device_of succeeded) (buckets_of same_device device_of failed))
