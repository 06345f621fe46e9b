-- ===== src/ReplayFilters/WayOut.antt =====
-- packages/core/src/replay-filters/way-out.ts: which filter to relax when a list is empty.
use growthmind.Prelude.{
  ◌≡◌, ◌≤◌, refl, Bool, true, false, not, ◌&&◌, Option, none, some, List, [], ◌∷◌, filter, length,
  leb, is_empty, if◌then◌else◌, arith,
}
use growthmind.ReplayFilters.Select.{ReplayFilters, ReplaySessionFact, ReplayLane, real}

pub data ReplayRelaxTarget : Type 0 where
  company_filter entry_filter lane_filter : ReplayRelaxTarget

pub data ReplayWayOut : Type 0 where
  relax : ReplayRelaxTarget → ReplayWayOut
  clear_all no_replays_yet : ReplayWayOut

pub record WayOutInput : Type 0 where
  pub filters : ReplayFilters
  pub relaxing_company : List ReplaySessionFact
  pub relaxing_entry : List ReplaySessionFact
  pub relaxing_lane : List ReplaySessionFact

pub record ActiveFilter : Type 0 where
  pub target : ReplayRelaxTarget
  pub on : Bool
  pub restores : Bool

abbrev is_set : {A : Type 0} → Option A → Bool
is_set none = false
is_set (some _) = true

abbrev is_not_default : ReplayLane → Bool
is_not_default real = false
is_not_default _ = true

-- `restores` is `restored.length > 0`.
abbrev pub all_filters : WayOutInput → List ActiveFilter
all_filters input =
    record {
      target = company_filter;
      on = is_set input.filters.company;
      restores = not (is_empty input.relaxing_company);
    }
    ∷ record {
      target = entry_filter;
      on = is_set input.filters.entry;
      restores = not (is_empty input.relaxing_entry);
    }
    ∷ record {
      target = lane_filter;
      on = is_not_default input.filters.lane;
      restores = not (is_empty input.relaxing_lane);
    }
    ∷ []

abbrev pub active_filters : WayOutInput → List ActiveFilter
active_filters input = filter (λ (f : ActiveFilter). f.on) (all_filters input)

abbrev pub culprits : WayOutInput → List ActiveFilter
culprits input = filter (λ (f : ActiveFilter). f.restores) (active_filters input)

abbrev out_of : List ActiveFilter → List ActiveFilter → ReplayWayOut
out_of active (f ∷ []) = relax f.target
out_of active _ = if leb 2 (length active) then clear_all else no_replays_yet

unfoldable pub way_out : WayOutInput → ReplayWayOut
way_out input = out_of (active_filters input) (culprits input)

-- The target is an active filter whose relaxing alone restores a session.
abbrev pub helps : WayOutInput → ReplayRelaxTarget → Bool
helps input company_filter = is_set input.filters.company && not (is_empty input.relaxing_company)
helps input entry_filter = is_set input.filters.entry && not (is_empty input.relaxing_entry)
helps input lane_filter = is_not_default input.filters.lane && not (is_empty input.relaxing_lane)

abbrev pub relax_targets : List ReplayRelaxTarget
relax_targets = company_filter ∷ entry_filter ∷ lane_filter ∷ []

-- What an answer says of the filters.
abbrev pub IsWayOut : WayOutInput → ReplayWayOut → Type 0
IsWayOut input (relax target) =
    (helps input target ≡ true) × (length (filter (helps input) relax_targets) ≡ 1)
IsWayOut input clear_all = 2 ≤ length (active_filters input)
IsWayOut input no_replays_yet =
    (length (active_filters input) ≤ 1) × (length (filter (helps input) relax_targets) ≡ 0)

way_out_answers :
    (input : WayOutInput) (out : ReplayWayOut) → way_out input ≡ out → IsWayOut input out
unfolding way_out
way_out_answers input (relax target) h = ground arith
way_out_answers input clear_all h = ground arith
way_out_answers input no_replays_yet h = ground arith

-- One filter is proposed only if relaxing it alone restores a session and this holds of no other; all are
-- cleared only if two or more are set; and no way out is offered only if at most one is set and relaxing
-- none restores a session.
pub way_out-IsWayOut : (input : WayOutInput) → IsWayOut input (way_out input)
way_out-IsWayOut input = way_out_answers input (way_out input) refl
