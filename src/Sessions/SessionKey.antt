-- ===== src/Sessions/SessionKey.antt =====
-- packages/shared/src/sessions/grouping.ts: the key that a session is known by.
pub mod Laws
use growthmind.Prelude.{
  ℕ, ◌+◌, ◌/◌, ◌≡◌, ◌≢◌, refl, ap, sym, ◌∙◌, Text, text, Bool, true, false, Option, none, some,
  List, [], ◌∷◌, ◌++◌, ◌==◌, drop, is_empty, starts_with, trim, if◌then◌else◌, arith, Bool-cases,
  inl, inr, Lacks,
}
use growthmind.Serialise.CanonicalJson.{decimal}

abbrev pub session_bucket_ms : ℕ
session_bucket_ms = 1_800_000

pub data ReplaySourceKind : Type 0 where
  rrweb posthog : ReplaySourceKind

pub record SessionKeyInput : Type 0 where
  pub post_hog_session_id : Option Text
  pub identity_key : Option Text
  pub occurred_at : ℕ
  pub source_event_id : Text

-- `text?.trim() ?? ""`
abbrev pub trimmed_or_empty : Option Text → Text
trimmed_or_empty none = []
trimmed_or_empty (some s) = trim s

unfoldable pub derive_session_key : SessionKeyInput → Text
derive_session_key input =
    let post_hog_session_id = trimmed_or_empty input.post_hog_session_id in
    let identity_key = trimmed_or_empty input.identity_key in
    if is_empty post_hog_session_id
    then (if is_empty identity_key
        then text "gm:anon:" ++ input.source_event_id
        else text "gm:" ++ (identity_key ++ 58 ∷ decimal (input.occurred_at / session_bucket_ms)))
    else text "ph:" ++ post_hog_session_id

abbrev pub posthog_key_input : Text → SessionKeyInput
posthog_key_input recording_id = record {
  post_hog_session_id = some (trim recording_id);
  identity_key = none;
  occurred_at = 0;
  source_event_id = recording_id;
}

unfoldable pub posthog_session_key : Text → Option Text
unfolding derive_session_key
posthog_session_key recording_id =
    if is_empty (trim recording_id)
    then none
    else some (derive_session_key (posthog_key_input recording_id))

unfoldable pub recording_session_key : ReplaySourceKind → Text → Option Text
recording_session_key rrweb recording_id = none
recording_session_key posthog recording_id = posthog_session_key recording_id

unfoldable pub recording_id_from_session_key : Text → Option Text
recording_id_from_session_key session_key =
    let id = drop 3 session_key in
    if starts_with session_key (text "ph:") then (if is_empty id then none else some id) else none
