-- ===== src/Onboarding/Setup.antt =====
-- packages/shared/src/onboarding/blockers.ts and attention.ts: what a customer is asked to do next, and
-- the fault that the landing page reports. The sentences are those of messages.ts.
pub mod Laws
use growthmind.Prelude.{
  ℕ, Text, text, Bool, true, false, not, ◌&&◌, ◌||◌, Option, none, some, List, [], ◌∷◌, find?,
}

pub data SetupBlockerId : Type 0 where
  analytics delivery channel arm : SetupBlockerId

pub record SetupFacts : Type 0 where
  pub analytics_attached : Bool
  pub workspace_attached : Bool
  pub delivery_resolved : Bool
  pub armed_at : Option ℕ

pub record SetupBlocker : Type 0 where
  pub id : SetupBlockerId
  pub heading : Text
  pub sentence : Text

-- A blocker with its test.
pub record ChainLink : Type 0 where
  pub blocker : SetupBlocker
  pub met : SetupFacts → Bool

abbrev pub stage_unarmed_heading : Text
stage_unarmed_heading = text "Nothing is being watched yet."

abbrev pub stage_unarmed_hint : Text
stage_unarmed_hint = text "Start watching, then go and cause something to fail in your own product."

abbrev pub setup_seeing_heading : Text
setup_seeing_heading = text "We can see your product."

abbrev pub setup_next_analytics : Text
setup_next_analytics =
    text "First, connect the analytics you already run. It is the only thing we need to start."

abbrev pub setup_next_delivery : Text
setup_next_delivery = text "Next, choose where what we find should arrive."

abbrev pub setup_next_channel : Text
setup_next_channel = text "Almost there — choose the channel it should arrive in."

abbrev pub is_armed : Option ℕ → Bool
is_armed none = false
is_armed (some at) = true

abbrev pub link : SetupBlockerId → Text → Text → (SetupFacts → Bool) → ChainLink
link id heading sentence met = record {
  blocker = record { id = id; heading = heading; sentence = sentence };
  met = met;
}

abbrev pub chain : List ChainLink
chain =
    link analytics stage_unarmed_heading setup_next_analytics (λ facts. facts.analytics_attached)
    ∷ link delivery setup_seeing_heading setup_next_delivery
        (λ facts. facts.workspace_attached || facts.delivery_resolved)
    ∷ link channel setup_seeing_heading setup_next_channel (λ facts. facts.delivery_resolved)
    ∷ link arm stage_unarmed_heading stage_unarmed_hint (λ facts. is_armed facts.armed_at)
    ∷ []

abbrev pub blocker_of : Option ChainLink → Option SetupBlocker
blocker_of none = none
blocker_of (some candidate) = some candidate.blocker

unfoldable pub next_blocker : SetupFacts → Option SetupBlocker
next_blocker facts = blocker_of (find? (λ candidate. not (candidate.met facts)) chain)

unfoldable pub can_arm : SetupFacts → Bool
can_arm facts = facts.analytics_attached && facts.delivery_resolved

pub data ConnectionStateStatus : Type 0 where
  not_connected validating connected_never_polled connected_no_events_yet connected_receiving
        failing disconnected :
      ConnectionStateStatus

pub data LandingAttentionReason : Type 0 where
  source_failing source_disconnected source_not_connected no_delivery_target :
      LandingAttentionReason

pub record LandingAttention : Type 0 where
  pub reason : LandingAttentionReason
  pub headline : Text
  pub detail : Text
  pub action : Text

abbrev pub attention : LandingAttentionReason → Text → Text → Text → LandingAttention
attention reason headline detail action = record {
  reason = reason;
  headline = headline;
  detail = detail;
  action = action;
}

abbrev pub reconnect_action : Text
reconnect_action = text "Reconnect it to start reading again:"

-- The table of sentences.
abbrev pub attention_for : LandingAttentionReason → LandingAttention
attention_for source_failing =
    attention source_failing (text "Growthmind is not reading your analytics.")
      (text
        "We could not reach your analytics account on the last try. Everything we already collected is still here.")
      reconnect_action
attention_for source_disconnected =
    attention source_disconnected (text "Growthmind has nothing to read.")
      (text "This project is no longer attached. Everything we already collected is still here.")
      reconnect_action
attention_for source_not_connected =
    attention source_not_connected (text "Growthmind has nothing to read.")
      (text "No analytics account is attached to this project yet.") reconnect_action
attention_for no_delivery_target =
    attention no_delivery_target (text "What we find has nowhere to arrive.")
      (text
        "No Slack channel is connected. We are still watching, and nothing we find reaches your team until one is.")
      (text "Connect a channel to start receiving findings:")

abbrev pub source_reason : ConnectionStateStatus → Option LandingAttentionReason
source_reason failing = some source_failing
source_reason disconnected = some source_disconnected
source_reason not_connected = some source_not_connected
source_reason _ = none

pub record LandingAttentionInput : Type 0 where
  pub source_status : Option ConnectionStateStatus
  pub has_delivery_target : Option Bool

abbrev pub reason_of_status : Option ConnectionStateStatus → Option LandingAttentionReason
reason_of_status none = none
reason_of_status (some status) = source_reason status

abbrev pub delivery_attention : Option Bool → Option LandingAttention
delivery_attention (some false) = some (attention_for no_delivery_target)
delivery_attention _ = none

abbrev pub attention_or :
    Option LandingAttentionReason → Option LandingAttention → Option LandingAttention
attention_or none rest = rest
attention_or (some reason) rest = some (attention_for reason)

unfoldable pub landing_attention : LandingAttentionInput → Option LandingAttention
landing_attention input =
    attention_or (reason_of_status input.source_status)
      (delivery_attention input.has_delivery_target)
