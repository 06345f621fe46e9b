-- ===== src/Sessions/SessionKey/Laws.antt =====
-- packages/shared/src/sessions/grouping.ts: the recording that a session's key names.
use growthmind.Prelude.{
  starts_with, ℕ, ◌≡◌, refl, Text, text, Bool, true, false, none, some, [], ◌∷◌, ◌++◌, is_empty,
  trim, trim-trim, if◌then◌else◌, Bool-cases, inl, inr,
}
use growthmind.Sessions.SessionKey.{
  SessionKeyInput, posthog, trimmed_or_empty, derive_session_key, recording_session_key,
  posthog_session_key, posthog_key_input, recording_id_from_session_key,
}

id_from_prefixed :
    (c : ℕ) (id : Text) → recording_id_from_session_key (text "ph:" ++ c ∷ id) ≡ some (c ∷ id)
unfolding recording_id_from_session_key starts_with
id_from_prefixed c id = refl

filled_text :
    (s : Text) → is_empty s ≡ false → recording_id_from_session_key (text "ph:" ++ s) ≡ some s
filled_text [] h = cc
filled_text (c ∷ s) h = id_from_prefixed c s

no_recording : (s : Text) → recording_id_from_session_key (text "gm:" ++ s) ≡ none
unfolding recording_id_from_session_key starts_with
no_recording s = refl

no_posthog :
    (anonymous : Bool) (s t : Text)
    → recording_id_from_session_key (if anonymous then text "gm:anon:" ++ s else text "gm:" ++ t)
      ≡ none
no_posthog true s t = no_recording (text "anon:" ++ s)
no_posthog false s t = no_recording t

-- A key gives back the PostHog session that it was derived from, in trimmed form; a key that was
-- derived from an identity or from an event names no recording.
pub recording_id_from_session_key-derive_session_key :
    (input : SessionKeyInput)
    → recording_id_from_session_key (derive_session_key input) ≡ (
        if is_empty (trimmed_or_empty input.post_hog_session_id)
        then none
        else some (trimmed_or_empty input.post_hog_session_id))
unfolding derive_session_key
recording_id_from_session_key-derive_session_key input =
    elim (Bool-cases (is_empty (trimmed_or_empty input.post_hog_session_id))) [
      | inl e ↦ rw e (no_posthog (is_empty (trimmed_or_empty input.identity_key)) _ _)
      | inr e ↦ rw e (filled_text (trimmed_or_empty input.post_hog_session_id) e)
    ]

-- The key of a recording at PostHog gives the recording's identifier back, without the white space
-- around it.
pub recording_id_from_session_key-recording_session_key :
    (recording_id : Text)
    → is_empty (trim recording_id) ≡ false
    → (key : Text) × (recording_session_key posthog recording_id ≡ some key)
      × (recording_id_from_session_key key ≡ some (trim recording_id))
unfolding recording_session_key posthog_session_key
recording_id_from_session_key-recording_session_key recording_id h = (
  derive_session_key (posthog_key_input recording_id),
  rw h refl,
  rw (
    recording_id_from_session_key-derive_session_key (posthog_key_input recording_id),
    trim-trim recording_id,
    h,
  ),
)
