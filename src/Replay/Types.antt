-- ===== src/Replay/Types.antt =====
-- packages/core/src/replay/types.ts, and the readings of an element in replay/nodes.ts.
use growthmind.Prelude.{
  ℕ, Text, text, text_eq, Bool, false, ◌||◌, Option, none, some, List, [], ◌∷◌, any, map_get,
}

pub record ElementIdentity : Type 0 where
  pub node_id : ℕ
  pub tag_name : Text
  pub id : Option Text
  pub classes : List Text
  pub role : Option Text
  pub test_id : Option Text
  pub accessible_name : Option Text
  pub attributes : List (Text × Text)

pub data ReactionKind : Type 0 where
  error message : ReactionKind

pub data SessionAction : Type 0 where
  page : (at_ms : ℕ) (href : Option Text) → SessionAction
  click : (at_ms : ℕ) (element : ElementIdentity) → SessionAction
  double_click : (at_ms : ℕ) (element : ElementIdentity) → SessionAction
  rage_click : (at_ms : ℕ) (element : ElementIdentity) (clicks span_ms : ℕ) → SessionAction
  dead_click : (at_ms : ℕ) (element : ElementIdentity) → SessionAction
  input : (at_ms : ℕ) (element : ElementIdentity) → SessionAction
  field_refocus : (at_ms : ℕ) (element : ElementIdentity) (focus_count : ℕ) → SessionAction
  field_abandoned : (at_ms : ℕ) (element : ElementIdentity) → SessionAction
  scroll_back : (at_ms : ℕ) (element : ElementIdentity) → SessionAction
  wait : (at_ms duration_ms : ℕ) → SessionAction
  reaction : (at_ms : ℕ) (reaction : ReactionKind) (text : Option Text) → SessionAction
  ended : (at_ms : ℕ) → SessionAction

pub record TranscriptCounts : Type 0 where
  pub clicks : ℕ
  pub dead_clicks : ℕ
  pub rage_clicks : ℕ
  pub refocuses : ℕ
  pub abandoned_fields : ℕ
  pub scroll_backs : ℕ

pub record SessionTranscript : Type 0 where
  pub actions : List SessionAction
  pub started_at : Option ℕ
  pub clock_origin_at_ms : Option ℕ
  pub duration_ms : ℕ
  pub pages : List Text
  pub counts : TranscriptCounts
  pub dropped_events : ℕ

abbrev pub interactive_tag_names : List Text
interactive_tag_names =
    text "a"
    ∷ text "button"
    ∷ text "input"
    ∷ text "select"
    ∷ text "textarea"
    ∷ text "label"
    ∷ text "summary"
    ∷ []

abbrev pub interactive_roles : List Text
interactive_roles =
    text "button"
    ∷ text "link"
    ∷ text "tab"
    ∷ text "menuitem"
    ∷ text "checkbox"
    ∷ text "radio"
    ∷ text "option"
    ∷ []

abbrev pub unknown_tag_name : Text
unknown_tag_name = text "#unknown"

abbrev pub includes_text : List Text → Text → Bool
includes_text ts t = any ts (λ u. text_eq u t)

abbrev pub option_text_is : Option Text → Text → Bool
option_text_is none t = false
option_text_is (some s) t = text_eq s t

abbrev pub role_is_interactive : Option Text → Bool
role_is_interactive none = false
role_is_interactive (some role) = includes_text interactive_roles role

unfoldable pub is_unknown_identity : ElementIdentity → Bool
unfolding text_eq
is_unknown_identity identity = text_eq identity.tag_name unknown_tag_name

unfoldable pub is_interactive : ElementIdentity → Bool
unfolding text_eq map_get
is_interactive identity =
    includes_text interactive_tag_names identity.tag_name
    || (role_is_interactive identity.role
        || option_text_is (map_get text_eq (text "type") identity.attributes) (text "submit"))
