-- ===== src/ReplayFilters/Select.antt =====
-- packages/core/src/replay-filters/lanes.ts and select.ts, with shared/src/replays/filters.ts. An instant stays a number of milliseconds where the
-- source prints it.
use growthmind.Prelude.{
  ℕ, ◌+◌, ◌≤◌, ◌≡◌, refl, Text, text_eq, Bool, true, false, ◌&&◌, Option, none, some, List, [], ◌∷◌,
  ◌++◌, filter, length, length-append, if◌then◌else◌, arith, Bool-cases, inl, inr,
}
use growthmind.Counts.{
  ExclusionReason, kept_none, internal_domain, automation_headless, automation_known_agent,
  automation_coding_agent,
}
use growthmind.Counts.Breakdown.{exclusion_reason_label}
use growthmind.Sessions.SessionKey.{recording_id_from_session_key}

pub data Origin : Type 0 where
  real_origin synthetic_origin : Origin

pub data ReplayLane : Type 0 where
  real simulated excluded : ReplayLane

pub data StampedExclusionReason : Type 0 where
  stamped_none stamped_internal_domain stamped_headless stamped_known_agent stamped_coding_agent :
      StampedExclusionReason

-- A stamped reason is one of the reasons that a count can have.
abbrev pub reason_of : StampedExclusionReason → ExclusionReason
reason_of stamped_none = kept_none
reason_of stamped_internal_domain = internal_domain
reason_of stamped_headless = automation_headless
reason_of stamped_known_agent = automation_known_agent
reason_of stamped_coding_agent = automation_coding_agent

pub record ReplayFilters : Type 0 where
  pub company : Option Text
  pub entry : Option Text
  pub lane : ReplayLane

pub record ReplaySessionFact : Type 0 where
  pub session_key : Text
  pub started_at : ℕ
  pub identity_email_domain : Option Text
  pub entry_url_path : Option Text
  pub origin : Origin
  pub exclusion_reason : StampedExclusionReason
  pub duration_seconds : Option ℕ
  pub active_seconds : Option ℕ
  pub click_count : Option ℕ
  pub keypress_count : Option ℕ
  pub console_error_count : Option ℕ

abbrev pub lane_by_exclusion_reason : StampedExclusionReason → ReplayLane
lane_by_exclusion_reason stamped_none = real
lane_by_exclusion_reason _ = excluded

abbrev lane_by_origin : Origin → StampedExclusionReason → ReplayLane
lane_by_origin synthetic_origin reason = simulated
lane_by_origin real_origin reason = lane_by_exclusion_reason reason

abbrev pub lane_of : ReplaySessionFact → ReplayLane
lane_of session = lane_by_origin session.origin session.exclusion_reason

pub record ReplayListRow : Type 0 where
  pub recording_id : Text
  pub session_key : Text
  pub started_at : ℕ
  pub company_domain : Option Text
  pub entry_url_path : Option Text
  pub lane : ReplayLane
  pub exclusion_label : Option Text
  pub duration_seconds : Option ℕ
  pub active_seconds : Option ℕ
  pub click_count : Option ℕ
  pub keypress_count : Option ℕ
  pub console_error_count : Option ℕ

pub record ReplayProvenance : Type 0 where
  pub replays : ℕ
  pub sessions : ℕ

pub record ReplaySelection : Type 0 where
  pub rows : List ReplayListRow
  pub provenance : ReplayProvenance

abbrev label_in_lane : ReplayLane → StampedExclusionReason → Option Text
label_in_lane excluded reason = some (exclusion_reason_label (reason_of reason))
label_in_lane _ reason = none

abbrev row_with_id : ReplaySessionFact → Option Text → Option ReplayListRow
row_with_id fact none = none
row_with_id fact (some id) = some (record {
  recording_id = id;
  session_key = fact.session_key;
  started_at = fact.started_at;
  company_domain = fact.identity_email_domain;
  entry_url_path = fact.entry_url_path;
  lane = lane_of fact;
  exclusion_label = label_in_lane (lane_of fact) fact.exclusion_reason;
  duration_seconds = fact.duration_seconds;
  active_seconds = fact.active_seconds;
  click_count = fact.click_count;
  keypress_count = fact.keypress_count;
  console_error_count = fact.console_error_count;
})

unfoldable pub to_replay_row : ReplaySessionFact → Option ReplayListRow
unfolding recording_id_from_session_key
to_replay_row fact = row_with_id fact (recording_id_from_session_key fact.session_key)

-- `filter === null || value === filter`
abbrev admits : Option Text → Option Text → Bool
admits none value = true
admits (some wanted) none = false
admits (some wanted) (some value) = text_eq value wanted

unfoldable pub matches : ReplaySessionFact → ReplayFilters → Bool
unfolding text_eq
matches session filters =
    admits filters.company session.identity_email_domain
    && admits filters.entry session.entry_url_path

abbrev pub push_row : Option ReplayListRow → List ReplayListRow → List ReplayListRow
push_row none rows = rows
push_row (some row) rows = rows ++ row ∷ []

-- The one pass; `rows` and `matched` are what it has so far.
unfoldable pub select_loop :
    List ReplaySessionFact → ReplayFilters → List ReplayListRow → ℕ → ReplaySelection
unfolding matches to_replay_row
select_loop [] filters rows matched = record {
  rows = rows;
  provenance = record { replays = length rows; sessions = matched };
}
select_loop (session ∷ sessions) filters rows matched =
    let skipped = select_loop sessions filters rows matched in
    let taken =
      select_loop sessions filters (push_row (to_replay_row session) rows) (matched + 1) in
    if matches session filters then taken else skipped

unfoldable pub select_replay_sessions : List ReplaySessionFact → ReplayFilters → ReplaySelection
unfolding select_loop
select_replay_sessions sessions filters = select_loop sessions filters [] 0

length-push_row :
    (o : Option ReplayListRow) (rows : List ReplayListRow)
    → length (push_row o rows) ≤ length rows + 1
length-push_row none rows = omega arith
length-push_row (some row) rows = omega (arith, length-append rows (row ∷ []))

select_loop_lem :
    (sessions : List ReplaySessionFact) (filters : ReplayFilters) (rows : List ReplayListRow)
    (matched : ℕ)
    → length rows ≤ matched
    → let s = select_loop sessions filters rows matched in
      (s.provenance.sessions ≡ matched + length (filter (λ f. matches f filters) sessions))
      × (s.provenance.replays ≡ length s.rows)
      × (s.provenance.replays ≤ s.provenance.sessions)
unfolding select_loop
select_loop_lem [] filters rows matched h = (omega arith, refl, h)
select_loop_lem (session ∷ sessions) filters rows matched h =
    elim (Bool-cases (matches session filters)) [
      | inl e ↦
          let (counted, listed, within) =
            select_loop_lem sessions filters (push_row (to_replay_row session) rows) (matched + 1)
              (omega (arith, length-push_row (to_replay_row session) rows)) in
          rw e (omega (arith, counted), listed, within)
      | inr e ↦ rw e (select_loop_lem sessions filters rows matched h)
    ]

-- The sessions of the sentence are those that match both filters, its replays are the rows listed below
-- it, and there are at most as many replays as sessions.
pub select_replay_sessions_lem :
    (sessions : List ReplaySessionFact) (filters : ReplayFilters)
    → let s = select_replay_sessions sessions filters in
      (s.provenance.sessions ≡ length (filter (λ f. matches f filters) sessions))
      × (s.provenance.replays ≡ length s.rows)
      × (s.provenance.replays ≤ s.provenance.sessions)
unfolding select_replay_sessions
select_replay_sessions_lem sessions filters =
    let (counted, listed, within) = select_loop_lem sessions filters [] 0 (omega arith) in
    (omega (arith, counted), listed, within)
