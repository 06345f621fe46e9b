-- ===== src/CohortCuts/Classify.antt =====
-- packages/shared/src/cohort-cuts/browsers.ts, devices.ts, cuts.ts.
use growthmind.Prelude.{
  Text, text, Bool, not, ◌&&◌, ◌||◌, Option, none, some, List, [], ◌∷◌, ◌++◌, map, any, trim,
  trim_start, trim_end, if◌then◌else◌,
}
use growthmind.Platform.{Platform}
use growthmind.Detect.Types.{
  BrowserFamily, safari, chrome, firefox, edge, other_browser, unknown_browser, DeviceType, mobile,
  tablet, desktop, unknown_device, SessionCohortCuts,
}
use growthmind.Exclusions.Automation.{matches_token}

abbrev pub edge_tokens : List Text
edge_tokens = text "edg" ∷ text "edga" ∷ text "edgios" ∷ []

abbrev pub long_tail_browser_tokens : List Text
long_tail_browser_tokens =
    text "opr"
    ∷ text "opera"
    ∷ text "samsungbrowser"
    ∷ text "ucbrowser"
    ∷ text "yabrowser"
    ∷ text "brave"
    ∷ text "vivaldi"
    ∷ text "duckduckgo"
    ∷ text "silk"
    ∷ text "qqbrowser"
    ∷ text "miuibrowser"
    ∷ text "huaweibrowser"
    ∷ text "whale"
    ∷ text "maxthon"
    ∷ text "puffin"
    ∷ []

abbrev pub chrome_tokens : List Text
chrome_tokens = text "chrome" ∷ text "crios" ∷ []

abbrev pub firefox_tokens : List Text
firefox_tokens = text "firefox" ∷ text "fxios" ∷ []

abbrev pub safari_tokens : List Text
safari_tokens = text "safari" ∷ []

abbrev pub tablet_tokens : List Text
tablet_tokens = text "ipad" ∷ text "tablet" ∷ text "kindle" ∷ text "silk" ∷ text "playbook" ∷ []

abbrev pub android_tokens : List Text
android_tokens = text "android" ∷ []

abbrev pub mobile_marker_tokens : List Text
mobile_marker_tokens = text "mobile" ∷ []

abbrev pub mobile_tokens : List Text
mobile_tokens =
    text "iphone"
    ∷ text "ipod"
    ∷ text "iemobile"
    ∷ text "windows phone"
    ∷ text "blackberry"
    ∷ text "bb10"
    ∷ text "opera mini"
    ∷ text "opera mobi"
    ∷ []

abbrev pub desktop_tokens : List Text
desktop_tokens =
    text "windows nt"
    ∷ text "macintosh"
    ∷ text "x11"
    ∷ text "cros"
    ∷ text "chrome os"
    ∷ text "freebsd"
    ∷ text "openbsd"
    ∷ text "netbsd"
    ∷ []

abbrev pub browser_families : List BrowserFamily
browser_families = safari ∷ chrome ∷ firefox ∷ edge ∷ other_browser ∷ unknown_browser ∷ []

abbrev pub device_types : List DeviceType
device_types = mobile ∷ tablet ∷ desktop ∷ unknown_device ∷ []

pub data CohortCut : Type 0 where
  surface_cut : CohortCut
  browser_cut : BrowserFamily → CohortCut
  device_cut : DeviceType → CohortCut

abbrev pub cohort_cuts : List CohortCut
cohort_cuts = surface_cut ∷ (map browser_cut browser_families ++ map device_cut device_types)

-- `userAgent?.trim() ?? ""`
abbrev pub trimmed_agent : Option Text → Text
trimmed_agent none = []
trimmed_agent (some user_agent) = trim user_agent

module _ (W : Platform) where
  abbrev pub fires_any : Text → List Text → Bool
  fires_any user_agent tokens = any tokens (λ token. matches_token W user_agent token)

  unfoldable pub classify_browser_family : Option Text → BrowserFamily
  unfolding matches_token trim_start trim_end
  classify_browser_family user_agent =
      let trimmed = trimmed_agent user_agent in
      if fires_any trimmed edge_tokens
      then edge
      else if fires_any trimmed long_tail_browser_tokens
      then other_browser
      else if fires_any trimmed chrome_tokens
      then chrome
      else if fires_any trimmed firefox_tokens
      then firefox
      else if fires_any trimmed safari_tokens
      then safari
      else unknown_browser

  abbrev pub is_tablet : Text → Bool
  is_tablet user_agent =
      fires_any user_agent tablet_tokens
      || (fires_any user_agent android_tokens && not (fires_any user_agent mobile_marker_tokens))

  unfoldable pub classify_device_type : Option Text → DeviceType
  unfolding matches_token trim_start trim_end
  classify_device_type user_agent =
      let trimmed = trimmed_agent user_agent in
      if is_tablet trimmed
      then tablet
      else if fires_any trimmed mobile_marker_tokens || fires_any trimmed mobile_tokens
      then mobile
      else if fires_any trimmed desktop_tokens
      then desktop
      else unknown_device

  abbrev pub cohort_cuts_of_user_agent : Option Text → SessionCohortCuts
  cohort_cuts_of_user_agent user_agent = record {
    browser = classify_browser_family user_agent;
    device = classify_device_type user_agent;
  }
