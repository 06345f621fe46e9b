-- ===== src/Notifications/Digest.antt =====
-- packages/core/src/notifications/digest.ts and dispatch.ts, with the window of
-- packages/shared/src/notifications/bell.ts, the days of settings.ts and the choice of organisations in
-- packages/db/src/services/notification-digest.service.ts. Instants are milliseconds since the epoch,
-- which was a Thursday, in UTC; an instant before the epoch is shown as the epoch.
pub mod Laws
use growthmind.Prelude.{
  ℕ, zero, suc, ◌+◌, ◌-◌, ◌*◌, ◌/◌, ◌%◌, max, Text, text_eq, Bool, true, false, ◌&&◌, Option, none,
  some, List, [], ◌∷◌, map_get, map_set, if◌then◌else◌,
}

pub data Weekday : Type 0 where
  monday tuesday wednesday thursday friday saturday sunday : Weekday

pub data DigestCadence : Type 0 where
  weekly off : DigestCadence

abbrev pub notification_window_days : ℕ
notification_window_days = 30

abbrev pub day_ms : ℕ
day_ms = 86_400_000

-- `getUTCDay`, which counts from Sunday.
abbrev pub utc_day : ℕ → ℕ
utc_day at = (at / day_ms + 4) % 7

-- The table of weekdays; there are no others.
abbrev pub weekday_by_utc_day : ℕ → Weekday
weekday_by_utc_day zero = sunday
weekday_by_utc_day (suc zero) = monday
weekday_by_utc_day (suc (suc zero)) = tuesday
weekday_by_utc_day (suc (suc (suc zero))) = wednesday
weekday_by_utc_day (suc (suc (suc (suc zero)))) = thursday
weekday_by_utc_day (suc (suc (suc (suc (suc zero))))) = friday
weekday_by_utc_day (suc (suc (suc (suc (suc (suc n)))))) = saturday

abbrev pub same_weekday : Weekday → Weekday → Bool
same_weekday monday monday = true
same_weekday tuesday tuesday = true
same_weekday wednesday wednesday = true
same_weekday thursday thursday = true
same_weekday friday friday = true
same_weekday saturday saturday = true
same_weekday sunday sunday = true
same_weekday _ _ = false

unfoldable pub digest_day_matches : Weekday → ℕ → Bool
digest_day_matches day at = same_weekday (weekday_by_utc_day (utc_day at)) day

-- `setUTCHours(0, 0, 0, 0)`
abbrev pub digest_window_end : ℕ → ℕ
digest_window_end at = at - at % day_ms

unfoldable pub digest_window_start : Option ℕ → ℕ → ℕ
digest_window_start none window_end = window_end - notification_window_days * day_ms
digest_window_start (some last_digest_at) window_end =
    max (digest_window_end last_digest_at) (window_end - notification_window_days * day_ms)

abbrev pub notification_dispatch_claim_ttl_ms : ℕ
notification_dispatch_claim_ttl_ms = 300_000

abbrev pub dispatch_claims_expire_before : ℕ → ℕ
dispatch_claims_expire_before at = at - notification_dispatch_claim_ttl_ms

-- An organisation with Slack, and a row of its settings.
pub record DigestOrganization : Type 0 where
  pub organization_id : Text
  pub organization_name : Text

pub record DigestSettings : Type 0 where
  pub digest_cadence : DigestCadence
  pub digest_day : Weekday

pub record DigestDueOrganization : Type 0 where
  pub organization_id : Text
  pub organization_name : Text
  pub digest_day : Weekday

-- No row means weekly, on Monday.
abbrev pub settings_or_default : Option DigestSettings → DigestSettings
settings_or_default none = record { digest_cadence = weekly; digest_day = monday }
settings_or_default (some settings) = settings

abbrev pub is_weekly : DigestCadence → Bool
is_weekly weekly = true
is_weekly off = false

abbrev pub is_due : DigestSettings → ℕ → Bool
is_due settings at = is_weekly settings.digest_cadence && digest_day_matches settings.digest_day at

abbrev pub due_organization : DigestOrganization → DigestSettings → DigestDueOrganization
due_organization org settings = record {
  organization_id = org.organization_id;
  organization_name = org.organization_name;
  digest_day = settings.digest_day;
}

-- The loop over the organisations, with the map of their settings.
unfoldable pub due_for_digest :
    List DigestOrganization → List (Text × DigestSettings) → ℕ → List DigestDueOrganization
unfolding map_get text_eq digest_day_matches
due_for_digest [] settings_by_org at = []
due_for_digest (org ∷ orgs) settings_by_org at =
    let rest = due_for_digest orgs settings_by_org at in
    let settings = settings_or_default (map_get text_eq org.organization_id settings_by_org) in
    if is_due settings at then due_organization org settings ∷ rest else rest
