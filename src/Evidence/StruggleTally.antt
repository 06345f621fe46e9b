-- ===== src/Evidence/StruggleTally.antt =====
-- packages/core/src/evidence/observed-struggle.ts, its first half: what a session's recording shows of
-- struggle on each page. A tally that the source changes in place is set again at its key.
use growthmind.Prelude.{
  ℕ, ◌+◌, max, Text, text_eq, Bool, true, false, not, Option, none, some, List, [], ◌∷◌, length,
  if◌then◌else◌, Sign, compare_numbers, to_sorted, map_get, map_set, map_values, set_add,
}
use growthmind.Platform.{Platform}
use growthmind.Sessions.UrlPath.{normalise_url_path, is_normalised_url_path}
use growthmind.Rules.{ThresholdRuleSet}
use growthmind.Evidence.Signals.{StruggleSubkind}
use growthmind.Evidence.ElementKey.{
  ElementKey, ElementKeyTier, stable, structural, stable_element_key,
}
use growthmind.Replay.Types.{
  ElementIdentity, SessionAction, page, rage_click, dead_click, field_abandoned, field_refocus,
  scroll_back, is_interactive,
}

pub data ObservedStruggleSubkind : Type 0 where
  saw_rage_click saw_dead_click saw_field_abandoned saw_field_refocus saw_scroll_back :
      ObservedStruggleSubkind

abbrev pub subkind_of : ObservedStruggleSubkind → StruggleSubkind
subkind_of saw_rage_click = StruggleSubkind.rage_click
subkind_of saw_dead_click = StruggleSubkind.dead_click
subkind_of saw_field_abandoned = StruggleSubkind.field_abandoned
subkind_of saw_field_refocus = StruggleSubkind.field_refocus
subkind_of saw_scroll_back = StruggleSubkind.scroll_back

abbrev pub observed_struggle_precedence : ObservedStruggleSubkind → ℕ
observed_struggle_precedence saw_rage_click = 0
observed_struggle_precedence saw_field_abandoned = 1
observed_struggle_precedence saw_dead_click = 2
observed_struggle_precedence saw_field_refocus = 3
observed_struggle_precedence saw_scroll_back = 4

-- `observedStruggleSubkindSchema.options`
abbrev pub observed_struggle_subkinds : List ObservedStruggleSubkind
observed_struggle_subkinds =
    saw_rage_click ∷ saw_dead_click ∷ saw_field_abandoned ∷ saw_field_refocus ∷ saw_scroll_back ∷ []

abbrev pub compare_precedence : ObservedStruggleSubkind → ObservedStruggleSubkind → Sign
compare_precedence left right =
    compare_numbers (observed_struggle_precedence left) (observed_struggle_precedence right)

unfoldable pub subkinds_by_precedence : List ObservedStruggleSubkind
unfolding to_sorted
subkinds_by_precedence = to_sorted compare_precedence observed_struggle_subkinds

pub data ObservedBeat : Type 0 where
  rage_beat : (element : ElementIdentity) (clicks : ℕ) → ObservedBeat
  dead_beat abandoned_beat : (element : ElementIdentity) → ObservedBeat
  refocus_beat : (element : ElementIdentity) (focus_count : ℕ) → ObservedBeat
  scroll_beat : (element : ElementIdentity) → ObservedBeat

abbrev pub element_of : ObservedBeat → ElementIdentity
element_of (rage_beat element _) = element
element_of (dead_beat element) = element
element_of (abandoned_beat element) = element
element_of (refocus_beat element _) = element
element_of (scroll_beat element) = element

abbrev pub observed_beat_of : SessionAction → Option ObservedBeat
observed_beat_of (rage_click _ element clicks _) = some (rage_beat element clicks)
observed_beat_of (dead_click _ element) = some (dead_beat element)
observed_beat_of (field_abandoned _ element) = some (abandoned_beat element)
observed_beat_of (field_refocus _ element focus_count) = some (refocus_beat element focus_count)
observed_beat_of (scroll_back _ element) = some (scroll_beat element)
observed_beat_of _ = none

pub record SessionTally : Type 0 where
  pub rage_max : ℕ
  pub refocus_max : ℕ
  pub scroll_backs : ℕ
  pub dead_repeats : List (Text × ℕ)
  pub abandoned_keys : List Text

pub record SurfaceAccumulator : Type 0 where
  pub reached_sessions : ℕ
  pub tallies : List SessionTally

abbrev pub empty_tally : SessionTally
empty_tally = record {
  rage_max = 0;
  refocus_max = 0;
  scroll_backs = 0;
  dead_repeats = [];
  abandoned_keys = [];
}

abbrev pub tally_or_empty : Option SessionTally → SessionTally
tally_or_empty none = empty_tally
tally_or_empty (some tally) = tally

abbrev pub accumulator_or_empty : Option SurfaceAccumulator → SurfaceAccumulator
accumulator_or_empty none = record { reached_sessions = 0; tallies = [] }
accumulator_or_empty (some accumulator) = accumulator

abbrev pub count_or_zero : Option ℕ → ℕ
count_or_zero none = 0
count_or_zero (some n) = n

abbrev pub is_stable : ElementKeyTier → Bool
is_stable stable = true
is_stable structural = false

unfoldable pub record_beat : SessionTally → ObservedBeat → Option ElementKey → SessionTally
unfolding is_interactive map_get map_set text_eq
record_beat tally (scroll_beat element) key = record tally { scroll_backs = tally.scroll_backs + 1 }
record_beat tally (rage_beat element clicks) none = tally
record_beat tally (rage_beat element clicks) (some key) = record tally {
  rage_max = max tally.rage_max clicks;
}
record_beat tally (refocus_beat element focus_count) none = tally
record_beat tally (refocus_beat element focus_count) (some key) = record tally {
  refocus_max = max tally.refocus_max focus_count;
}
record_beat tally (dead_beat element) none = tally
record_beat tally (dead_beat element) (some key) =
    let repeats = count_or_zero (map_get text_eq key.key tally.dead_repeats) + 1 in
    if not (is_stable key.tier)
    then tally
    else if not (is_interactive element)
    then tally
    else record tally { dead_repeats = map_set text_eq key.key repeats tally.dead_repeats }
record_beat tally (abandoned_beat element) none = tally
record_beat tally (abandoned_beat element) (some key) =
    if not (is_stable key.tier)
    then tally
    else record tally { abandoned_keys = set_add text_eq key.key tally.abandoned_keys }

abbrev pub largest_of : List ℕ → ℕ
largest_of [] = 0
largest_of (v ∷ vs) = max v (largest_of vs)

abbrev pub magnitude_of : ObservedStruggleSubkind → SessionTally → ℕ
magnitude_of saw_rage_click tally = tally.rage_max
magnitude_of saw_dead_click tally = largest_of (map_values text_eq tally.dead_repeats)
magnitude_of saw_field_abandoned tally = length tally.abandoned_keys
magnitude_of saw_field_refocus tally = tally.refocus_max
magnitude_of saw_scroll_back tally = tally.scroll_backs

abbrev pub threshold_of : ThresholdRuleSet → ObservedStruggleSubkind → ℕ
threshold_of rules saw_rage_click = rules.struggle_rage_click_min
threshold_of rules saw_dead_click = rules.struggle_dead_click_min
threshold_of rules saw_field_abandoned = rules.struggle_field_abandoned_min
threshold_of rules saw_field_refocus = rules.struggle_field_refocus_min
threshold_of rules saw_scroll_back = rules.struggle_scroll_back_min

abbrev pub Visited : Type 0
Visited = List (Text × SessionTally)

module _ (W : Platform) where
  abbrev pub if_normalised : Text → Option Text
  if_normalised normalised = if is_normalised_url_path W normalised then some normalised else none

  -- The surface that a page action names; `none` is `null`.
  unfoldable pub page_surface : Option Text → Option Text
  unfolding is_normalised_url_path normalise_url_path
  page_surface none = none
  page_surface (some href) = elim (normalise_url_path W none (some href)) [
    | none ↦ none
    | some normalised ↦ if_normalised normalised
  ]

abbrev pub visit : Option Text → Visited → Visited
visit none visited = visited
visit (some surface) visited =
    map_set text_eq surface (tally_or_empty (map_get text_eq surface visited)) visited

abbrev pub observe : Option Text → Option ObservedBeat → Visited → Visited
observe none beat visited = visited
observe (some surface) none visited = visited
observe (some surface) (some beat) visited =
    map_set text_eq surface
      (record_beat (tally_or_empty (map_get text_eq surface visited)) beat
        (stable_element_key (element_of beat)))
      visited

module _ (W : Platform) where
  abbrev pub surface_after : Option Text → SessionAction → Option Text
  surface_after current (page _ href) = page_surface W href
  surface_after current _ = current

  abbrev pub visited_page : SessionAction → Option Text
  visited_page (page _ href) = page_surface W href
  visited_page _ = none

  -- The loop over the actions; `current` is the surface of the last page action. A page action
  -- holds no beat, so that `observe` leaves what `visit` has set.
  unfoldable pub tally_actions : Option Text → List SessionAction → Visited → Visited
  unfolding page_surface record_beat stable_element_key map_get map_set text_eq
  tally_actions current [] visited = visited
  tally_actions current (action ∷ actions) visited =
      tally_actions (surface_after current action) actions
        (observe current (observed_beat_of action) (visit (visited_page action) visited))
