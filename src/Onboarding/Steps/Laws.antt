-- ===== src/Onboarding/Steps/Laws.antt =====
-- packages/shared/src/onboarding/steps.ts: the steps that are asked for and those that may be changed.
use growthmind.Prelude.{
  ℕ, ◌≤◌, ◌≡◌, refl, Bool, true, false, not, ◌&&◌, ◌||◌, Option, none, some, List, [], ◌∷◌, any,
  filter, length, map, map_get, arith, if◌then◌else◌,
}
use growthmind.Onboarding.Setup.{is_armed}
use growthmind.Onboarding.Steps.{
  resolve_slack, StepState, pending, active, done, skipped, coming_next, StepId, analytics, slack,
  agent, moment, StepSequenceFacts, StepView, is_analytics_attached, done_if, resolved, walk_steps,
  step_resolutions, step_view, step_rows, is_stage_open, derive_step_states,
}

abbrev pub is_active : StepState → Bool
is_active active = true
is_active _ = false

abbrev pub is_moment : StepId → Bool
is_moment moment = true
is_moment _ = false

-- A step before the last one is shown as the one to do.
abbrev pub is_asked : StepView → Bool
is_asked view = is_active view.state && not (is_moment view.id)

-- The steps that are done or skipped come before the one that is not, nothing is done after it, and the
-- run is not armed.
abbrev pub asks : Bool → Bool → Bool → Option ℕ → Bool
asks attached slack_resolved assisted armed_at =
    not (is_armed armed_at) && (not assisted && (attached || not slack_resolved))

-- The views of a setup, by what its states are derived from.
abbrev views_of :
    StepSequenceFacts → Bool → Option StepState → Bool → Option ℕ → Bool → List StepView
views_of facts attached slack_state assisted armed_at stage_open =
    let resolutions =
      resolved analytics (done_if attached) true
      ∷ resolved slack slack_state true
      ∷ resolved agent (done_if assisted) false
      ∷ [] in
    map (step_view facts (walk_steps 0 resolutions resolutions armed_at []) stage_open) step_rows

AsksOne : List StepView → Bool → Type 0
AsksOne views b = (length (filter is_asked views) ≤ 1) × (any views is_asked ≡ b)

abbrev is_slack_state : Option StepState → Bool
is_slack_state none = true
is_slack_state (some done) = true
is_slack_state (some skipped) = true
is_slack_state (some _) = false

abbrev is_some : Option StepState → Bool
is_some none = false
is_some (some state) = true

AsksOne-views_of :
    (facts : StepSequenceFacts) (attached : Bool) (slack_state : Option StepState) (assisted : Bool)
    (armed_at : Option ℕ) (stage_open : Bool)
    → is_slack_state slack_state ≡ true
    → AsksOne
        (views_of facts attached slack_state assisted armed_at stage_open)
        (asks attached (is_some slack_state) assisted armed_at)
unfolding AsksOne walk_steps map_get
AsksOne-views_of facts true none true none stage_open h = (omega arith, refl)
AsksOne-views_of facts true none true (some at) stage_open h = (omega arith, refl)
AsksOne-views_of facts true none false none stage_open h = (omega arith, refl)
AsksOne-views_of facts true none false (some at) stage_open h = (omega arith, refl)
AsksOne-views_of facts true (some done) true none stage_open h = (omega arith, refl)
AsksOne-views_of facts true (some done) true (some at) stage_open h = (omega arith, refl)
AsksOne-views_of facts true (some done) false none stage_open h = (omega arith, refl)
AsksOne-views_of facts true (some done) false (some at) stage_open h = (omega arith, refl)
AsksOne-views_of facts true (some skipped) true none stage_open h = (omega arith, refl)
AsksOne-views_of facts true (some skipped) true (some at) stage_open h = (omega arith, refl)
AsksOne-views_of facts true (some skipped) false none stage_open h = (omega arith, refl)
AsksOne-views_of facts true (some skipped) false (some at) stage_open h = (omega arith, refl)
AsksOne-views_of facts false none true none stage_open h = (omega arith, refl)
AsksOne-views_of facts false none true (some at) stage_open h = (omega arith, refl)
AsksOne-views_of facts false none false none stage_open h = (omega arith, refl)
AsksOne-views_of facts false none false (some at) stage_open h = (omega arith, refl)
AsksOne-views_of facts false (some done) true none stage_open h = (omega arith, refl)
AsksOne-views_of facts false (some done) true (some at) stage_open h = (omega arith, refl)
AsksOne-views_of facts false (some done) false none stage_open h = (omega arith, refl)
AsksOne-views_of facts false (some done) false (some at) stage_open h = (omega arith, refl)
AsksOne-views_of facts false (some skipped) true none stage_open h = (omega arith, refl)
AsksOne-views_of facts false (some skipped) true (some at) stage_open h = (omega arith, refl)
AsksOne-views_of facts false (some skipped) false none stage_open h = (omega arith, refl)
AsksOne-views_of facts false (some skipped) false (some at) stage_open h = (omega arith, refl)
AsksOne-views_of facts a (some pending) g r stage_open h = cc
AsksOne-views_of facts a (some active) g r stage_open h = cc
AsksOne-views_of facts a (some coming_next) g r stage_open h = cc

slack_state-of :
    (facts : StepSequenceFacts) (connected skipped_it : Bool)
    → is_slack_state (if connected then some done else if skipped_it then some skipped else none)
      ≡ true
slack_state-of facts true b = refl
slack_state-of facts false true = refl
slack_state-of facts false false = refl

is_some-slack :
    (connected skipped_it : Bool)
    → is_some (if connected then some done else if skipped_it then some skipped else none)
      ≡ (connected || skipped_it)
is_some-slack true b = refl
is_some-slack false true = refl
is_some-slack false false = refl

interactive_views :
    (facts : StepSequenceFacts) (walked : List (StepId × StepState)) (stage_open read_only : Bool)
    → facts.reopened_read_only ≡ read_only
    → any (map (step_view facts walked stage_open) step_rows) (λ view. view.interactive)
      ≡ not read_only
interactive_views facts walked stage_open true h = rw h (ground arith)
interactive_views facts walked stage_open false h = rw h refl

-- What the views of a setup show: at most one step before the last is the one to do, and there is one
-- exactly if the run is not armed, no assistant is connected, and Slack is not settled before analytics
-- is attached; a setup that is reopened read-only takes no action, and any other one does.
pub derive_step_states_lem :
    (facts : StepSequenceFacts)
    → (length (filter is_asked (derive_step_states facts)) ≤ 1)
      × (any (derive_step_states facts) is_asked
          ≡ asks
              (is_analytics_attached facts.connection_status)
              (facts.slack_connected || facts.slack_skipped)
              facts.agent_connected
              facts.armed_at)
      × (any (derive_step_states facts) (λ view. view.interactive) ≡ not facts.reopened_read_only)
unfolding derive_step_states AsksOne
derive_step_states_lem facts =
    let (few, asked) =
      AsksOne-views_of facts (is_analytics_attached facts.connection_status) (resolve_slack facts)
        facts.agent_connected facts.armed_at (is_stage_open facts)
        (slack_state-of facts facts.slack_connected facts.slack_skipped) in
    (
      few,
      rw (← is_some-slack facts.slack_connected facts.slack_skipped) asked,
      interactive_views facts
          (walk_steps 0 (step_resolutions facts) (step_resolutions facts) facts.armed_at [])
          (is_stage_open facts) facts.reopened_read_only refl,
    )
