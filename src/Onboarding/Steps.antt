-- ===== src/Onboarding/Steps.antt =====
-- packages/shared/src/onboarding/steps.ts: the steps of the setup and the state that each is shown in. Of
-- a step's descriptor the kind, the identifier and the ordinal are kept, which is what the states are
-- derived from; its fields, actions and texts are left out.
pub mod Laws
use growthmind.Prelude.{
  ℕ, ◌+◌, Bool, true, false, not, ◌&&◌, ◌||◌, Option, none, some, List, [], ◌∷◌, map, all, any,
  filter, take, drop, map_get, map_set, if◌then◌else◌,
}
use growthmind.Onboarding.Setup.{
  ConnectionStateStatus, connected_never_polled, connected_no_events_yet, connected_receiving,
  failing, is_armed,
}

pub data StepState : Type 0 where
  pending active done skipped coming_next : StepState

pub data StepId : Type 0 where
  repo analytics slack agent moment : StepId

pub data StepKind : Type 0 where
  soon work panel stage : StepKind

pub record StepRow : Type 0 where
  pub kind : StepKind
  pub id : StepId
  pub ordinal : ℕ

abbrev pub row : StepKind → StepId → ℕ → StepRow
row kind id ordinal = record { kind = kind; id = id; ordinal = ordinal }

abbrev pub step_rows : List StepRow
step_rows =
    row soon repo 1
    ∷ row work analytics 2
    ∷ row work slack 3
    ∷ row panel agent 4
    ∷ row stage moment 5
    ∷ []

abbrev pub is_soon : StepKind → Bool
is_soon soon = true
is_soon _ = false

abbrev pub same_step : StepId → StepId → Bool
same_step repo repo = true
same_step analytics analytics = true
same_step slack slack = true
same_step agent agent = true
same_step moment moment = true
same_step _ _ = false

-- `LIVE_STEP_DESCRIPTORS` and the map of their positions.
abbrev pub live_step_rows : List StepRow
live_step_rows = filter (λ (r : StepRow). not (is_soon r.kind)) step_rows

unfoldable pub number_from : ℕ → List StepRow → List (StepId × ℕ) → List (StepId × ℕ)
unfolding map_set
number_from n [] ordinals = ordinals
number_from n (r ∷ rows) ordinals = number_from (n + 1) rows (map_set same_step r.id n ordinals)

-- `?.ordinal ?? 0`
abbrev pub declared_ordinal : List StepRow → StepId → ℕ
declared_ordinal [] id = 0
declared_ordinal (r ∷ rows) id =
    let rest = declared_ordinal rows id in if same_step r.id id then r.ordinal else rest

abbrev pub ordinal_or : Option ℕ → ℕ → ℕ
ordinal_or none declared = declared
ordinal_or (some n) declared = n

unfoldable pub display_ordinal : StepId → ℕ
unfolding number_from map_get
display_ordinal id =
    ordinal_or (map_get same_step id (number_from 1 live_step_rows []))
      (declared_ordinal step_rows id)

pub record StepSequenceFacts : Type 0 where
  pub connection_status : Option ConnectionStateStatus
  pub slack_connected : Bool
  pub slack_skipped : Bool
  pub slack_test_post_failed : Bool
  pub agent_connected : Bool
  pub armed_at : Option ℕ
  pub reopened_read_only : Bool

pub record StepView : Type 0 where
  pub id : StepId
  pub ordinal : ℕ
  pub state : StepState
  pub is_open : Bool
  pub interactive : Bool

-- The set of statuses.
abbrev pub is_attached_status : ConnectionStateStatus → Bool
is_attached_status connected_never_polled = true
is_attached_status connected_no_events_yet = true
is_attached_status connected_receiving = true
is_attached_status failing = true
is_attached_status _ = false

abbrev pub is_analytics_attached : Option ConnectionStateStatus → Bool
is_analytics_attached none = false
is_analytics_attached (some status) = is_attached_status status

-- A resolution is `done`, `skipped` or none.
pub record ResolvedStep : Type 0 where
  pub id : StepId
  pub resolution : Option StepState
  pub gates_stage : Bool

abbrev pub done_if : Bool → Option StepState
done_if true = some done
done_if false = none

abbrev pub resolve_analytics : StepSequenceFacts → Option StepState
resolve_analytics facts = done_if (is_analytics_attached facts.connection_status)

abbrev pub resolve_slack : StepSequenceFacts → Option StepState
resolve_slack facts =
    if facts.slack_connected then some done else if facts.slack_skipped then some skipped else none

abbrev pub resolve_agent : StepSequenceFacts → Option StepState
resolve_agent facts = done_if facts.agent_connected

abbrev pub resolved : StepId → Option StepState → Bool → ResolvedStep
resolved id resolution gates_stage = record {
  id = id;
  resolution = resolution;
  gates_stage = gates_stage;
}

abbrev pub step_resolutions : StepSequenceFacts → List ResolvedStep
step_resolutions facts =
    resolved analytics (resolve_analytics facts) true
    ∷ resolved slack (resolve_slack facts) true
    ∷ resolved agent (resolve_agent facts) false
    ∷ []

abbrev pub is_resolved : Option StepState → Bool
is_resolved none = false
is_resolved (some state) = true

abbrev pub has_resolution : ResolvedStep → Bool
has_resolution entry = is_resolved entry.resolution

abbrev pub unresolved_state : ℕ → List ResolvedStep → Option ℕ → StepState
unresolved_state index resolutions armed_at =
    let any_earlier_unresolved =
      any (take index resolutions) (λ entry. not (has_resolution entry)) in
    let any_later_resolved = any (drop (index + 1) resolutions) has_resolution in
    if not any_earlier_unresolved && (not any_later_resolved && not (is_armed armed_at))
    then active
    else pending

-- `entry.resolution ?? unresolvedState(...)`
abbrev pub state_or : Option StepState → StepState → StepState
state_or none unresolved = unresolved
state_or (some resolution) unresolved = resolution

-- The map `walked`.
unfoldable pub walk_steps :
    ℕ
    → List ResolvedStep
    → List ResolvedStep
    → Option ℕ
    → List (StepId × StepState)
    → List (StepId × StepState)
unfolding map_set
walk_steps index [] resolutions armed_at walked = walked
walk_steps index (entry ∷ rest) resolutions armed_at walked =
    walk_steps (index + 1) rest resolutions armed_at (
      map_set same_step entry.id
        (state_or entry.resolution (unresolved_state index resolutions armed_at)) walked)

abbrev pub pending_or : Option StepState → StepState
pending_or none = pending
pending_or (some state) = state

abbrev pub state_of : StepKind → StepId → List (StepId × StepState) → StepState
state_of soon id walked = coming_next
state_of stage id walked = active
state_of work id walked = pending_or (map_get same_step id walked)
state_of panel id walked = pending_or (map_get same_step id walked)

abbrev pub opens : StepKind → Bool → Bool
opens stage stage_open = stage_open
opens _ stage_open = true

abbrev pub step_view : StepSequenceFacts → List (StepId × StepState) → Bool → StepRow → StepView
step_view facts walked stage_open r = record {
  id = r.id;
  ordinal = r.ordinal;
  state = state_of r.kind r.id walked;
  is_open = opens r.kind stage_open;
  interactive = opens r.kind stage_open && (not facts.reopened_read_only && not (is_soon r.kind));
}

abbrev pub is_stage_open : StepSequenceFacts → Bool
is_stage_open facts =
    is_armed facts.armed_at
    || all (step_resolutions facts) (λ entry. not entry.gates_stage || has_resolution entry)

unfoldable pub derive_step_states : StepSequenceFacts → List StepView
unfolding walk_steps map_get
derive_step_states facts =
    let resolutions = step_resolutions facts in
    let walked = walk_steps 0 resolutions resolutions facts.armed_at [] in
    map (step_view facts walked (is_stage_open facts)) step_rows
