-- ===== src/Shipped/Eligibility.antt =====
-- packages/core/src/shipped/eligibility.ts: the sessions that reached a page, the basis over them, and
-- the people among them.
pub mod Laws
use growthmind.Prelude.{
  ℕ, ◌+◌, Text, text_eq, Bool, true, false, not, ◌&&◌, ◌||◌, Option, none, some, List, [], ◌∷◌,
  ◌++◌, map, filter, any, all, length, head?, is_empty, ltb, ◌==◌, if◌then◌else◌, map_get, map_set,
  map_values,
}
use growthmind.Platform.{Platform}
use growthmind.Replay.DescribeValue.{deliverable_name}
use growthmind.Counts.{ExclusionReason, CountBasis}
use growthmind.Counts.Breakdown.{build_set_aside_breakdown, count_reason}
use growthmind.Replay.Types.{
  SessionAction, click, double_click, rage_click, dead_click, input, field_refocus, field_abandoned,
  scroll_back, ElementIdentity, SessionTranscript, option_text_is,
}
use growthmind.Detect.Types.{DetectorCorpus, SessionTimeline, SessionReplay}
use growthmind.Detect.Analysed.{is_kept}
use growthmind.Spine.Walk.{same_version, surface_normalisation_version_of}
use growthmind.Sessions.UrlPath.{url_path_normalisation_version}
use growthmind.Shipped.PageMatch.{normalised_page_address, page_matches, matches_spine_walk}

pub data ShippedCorpusKind : Type 0 where
  page_kind recorded_kind : ShippedCorpusKind

pub record EligibleSession : Type 0 where
  pub session : SessionTimeline
  pub touched : Bool

pub record PeopleTally : Type 0 where
  pub people_basis : Option CountBasis
  pub returned : ℕ
  pub unidentified : ℕ

-- `"element" in action`
abbrev pub acted_on : SessionAction → Option ElementIdentity
acted_on (click _ element) = some element
acted_on (double_click _ element) = some element
acted_on (rage_click _ element _ _) = some element
acted_on (dead_click _ element) = some element
acted_on (input _ element) = some element
acted_on (field_refocus _ element _) = some element
acted_on (field_abandoned _ element) = some element
acted_on (scroll_back _ element) = some element
acted_on _ = none

abbrev pub is_missing_address : Option Text → Bool
is_missing_address none = true
is_missing_address (some _) = false

module _ (W : Platform) where
  abbrev pub name_of : Option Text → Option Text
  name_of none = none
  name_of (some name) = deliverable_name name

  abbrev pub element_name : Option ElementIdentity → Option Text
  element_name none = none
  element_name (some element) = name_of element.accessible_name

  abbrev pub names_control : SessionTranscript → Text → Bool
  names_control transcript label =
      any transcript.actions (λ action. option_text_is (element_name (acted_on action)) label)

  abbrev pub spine_entry : Text → SessionTimeline → EligibleSession
  spine_entry page session = record {
    session = session;
    touched =
        same_version (surface_normalisation_version_of (session ∷ []) page)
          (some url_path_normalisation_version);
  }

  abbrev pub eligible_on_spine : List SessionTimeline → Text → List EligibleSession
  eligible_on_spine sessions page =
      map (spine_entry page) (filter (matches_spine_walk page) sessions)

  -- `new Map(replays.map((replay) => [replay.sessionId, replay]))`: the last of an id stays.
  abbrev pub by_id : List SessionReplay → List (Text × SessionReplay) → List (Text × SessionReplay)
  by_id [] found = found
  by_id (replay ∷ replays) found = by_id replays (map_set text_eq replay.session_id replay found)

  abbrev pub recording_entry :
      SessionTimeline → Option SessionReplay → Text → Text → List EligibleSession
  recording_entry session none page label = []
  recording_entry session (some replay) page label =
      let pages = replay.transcript.pages in
      let matched = any pages (page_matches W page) in
      let unreadable = any pages (λ href. is_missing_address (normalised_page_address W href)) in
      if not matched && not unreadable
      then []
      else record { session = session; touched = matched && names_control replay.transcript label }
        ∷ []

  unfoldable pub eligible_on_recordings :
      List SessionTimeline → List (Text × SessionReplay) → Text → Text → List EligibleSession
  unfolding map_get text_eq normalised_page_address
  eligible_on_recordings [] replays page label = []
  eligible_on_recordings (session ∷ sessions) replays page label =
      recording_entry session (map_get text_eq session.session_id replays) page label
      ++ eligible_on_recordings sessions replays page label

  abbrev or_no_replays : Option (List SessionReplay) → List SessionReplay
  or_no_replays none = []
  or_no_replays (some replays) = replays

  unfoldable pub eligible_sessions_for :
      DetectorCorpus → ShippedCorpusKind → Text → Text → List EligibleSession
  unfolding eligible_on_recordings map_set text_eq surface_normalisation_version_of
  eligible_sessions_for corpus page_kind page label = eligible_on_spine corpus.sessions page
  eligible_sessions_for corpus recorded_kind page label =
      eligible_on_recordings corpus.sessions (by_id (or_no_replays corpus.replays) []) page label

abbrev pub is_true : Option Bool → Bool
is_true none = false
is_true (some b) = b

abbrev pub is_unchecked : SessionTimeline → Bool
is_unchecked session = is_true session.who_counts_unchecked

-- The loop over the sessions that were set aside.
unfoldable pub tally_reasons :
    List SessionTimeline → List (ExclusionReason × ℕ) → List (ExclusionReason × ℕ)
unfolding count_reason
tally_reasons [] counts = counts
tally_reasons (session ∷ sessions) counts =
    let next = tally_reasons sessions counts in
    let counted = tally_reasons sessions (count_reason session.exclusion_reason counts) in
    if is_kept session then next else counted

unfoldable pub rebuild_basis : List SessionTimeline → CountBasis
unfolding tally_reasons build_set_aside_breakdown
rebuild_basis sessions =
    let kept = filter is_kept sessions in
    record {
      total_in_window = length sessions;
      kept = length kept;
      set_aside = build_set_aside_breakdown (tally_reasons sessions []);
      kept_unchecked = length (filter is_unchecked kept);
    }

unfoldable pub who_counts_is_readable : DetectorCorpus → Bool
who_counts_is_readable corpus =
    length (filter (λ s. is_kept s && is_unchecked s) corpus.sessions)
    == corpus.basis.kept_unchecked

pub record PersonGroup : Type 0 where
  pub kept : List SessionTimeline
  pub set_aside : List SessionTimeline
  pub touched : ℕ

abbrev pub group_or_new : Option PersonGroup → PersonGroup
group_or_new none = record { kept = []; set_aside = []; touched = 0 }
group_or_new (some group) = group

abbrev pub add_to_group : EligibleSession → PersonGroup → PersonGroup
add_to_group entry group =
    if is_kept entry.session
    then record {
      kept = group.kept ++ entry.session ∷ [];
      set_aside = group.set_aside;
      touched = if entry.touched then group.touched + 1 else group.touched;
    }
    else record {
      kept = group.kept;
      set_aside = group.set_aside ++ entry.session ∷ [];
      touched = group.touched;
    }

pub record Grouped : Type 0 where
  pub groups : List (ℕ × PersonGroup)
  pub unidentified : ℕ

abbrev pub group_entry : EligibleSession → Option ℕ → Grouped → Grouped
group_entry entry none grouped =
    if is_kept entry.session
    then record grouped { unidentified = grouped.unidentified + 1 }
    else grouped
group_entry entry (some group) grouped = record grouped {
  groups =
      map_set ◌==◌ group (add_to_group entry (group_or_new (map_get ◌==◌ group grouped.groups)))
        grouped.groups;
}

unfoldable pub group_people : List EligibleSession → Grouped → Grouped
unfolding map_get map_set
group_people [] grouped = grouped
group_people (entry ∷ entries) grouped =
    group_people entries (group_entry entry entry.session.identity_group grouped)

pub record PeopleCounts : Type 0 where
  pub by_reason : List (ExclusionReason × ℕ)
  pub kept : ℕ
  pub kept_unchecked : ℕ
  pub returned : ℕ

abbrev pub count_kept_group : PersonGroup → PeopleCounts → PeopleCounts
count_kept_group group counts = record counts {
  kept = counts.kept + 1;
  kept_unchecked =
      if all group.kept is_unchecked then counts.kept_unchecked + 1 else counts.kept_unchecked;
  returned = if ltb 1 group.touched then counts.returned + 1 else counts.returned;
}

-- One group, by the first of its sessions that were set aside.
abbrev pub count_group : PersonGroup → Option SessionTimeline → PeopleCounts → PeopleCounts
count_group group none counts = count_kept_group group counts
count_group group (some first) counts =
    if is_empty group.kept
    then record counts { by_reason = count_reason first.exclusion_reason counts.by_reason }
    else count_kept_group group counts

unfoldable pub count_people : List (ℕ × PersonGroup) → PeopleCounts → PeopleCounts
unfolding count_reason
count_people [] counts = counts
count_people ((_, group) ∷ groups) counts =
    count_people groups (count_group group (head? group.set_aside) counts)

abbrev pub no_people : PeopleCounts
no_people = record { by_reason = []; kept = 0; kept_unchecked = 0; returned = 0 }

abbrev pub tally_of : Grouped → PeopleCounts → PeopleTally
tally_of grouped counts =
    if is_empty grouped.groups
    then record { people_basis = none; returned = 0; unidentified = grouped.unidentified }
    else record {
      people_basis = some (record {
        total_in_window = length grouped.groups;
        kept = counts.kept;
        set_aside = build_set_aside_breakdown counts.by_reason;
        kept_unchecked = counts.kept_unchecked;
      });
      returned = counts.returned;
      unidentified = grouped.unidentified;
    }

unfoldable pub tally_people : List EligibleSession → PeopleTally
unfolding group_people count_people build_set_aside_breakdown
tally_people eligible =
    let grouped = group_people eligible (record { groups = []; unidentified = 0 }) in
    tally_of grouped (count_people grouped.groups no_people)
