-- ===== src/Spine/Walk.antt =====
-- packages/core/src/spine/walk.ts: the pages that a session walked, and the moves between them.
pub mod Laws
use growthmind.Prelude.{
  ℕ, Text, text_eq, Bool, true, false, Option, none, some, List, [], ◌∷◌, filter, map, all, map_get,
  map_set, set_add, if◌then◌else◌, ◌==◌, not, head?,
}
use growthmind.Detect.Types.{TimelineEvent, SessionTimeline}
use growthmind.Detect.Order.{order_timeline}
use growthmind.Detect.Analysed.{all_events}

-- `path !== previous`, where `previous` starts as `null`.
abbrev pub is_path : Option Text → Text → Bool
is_path none path = false
is_path (some previous) path = text_eq previous path

-- The loop over the ordered events; `previous` is the last path seen.
unfoldable pub walk_from : Option Text → List TimelineEvent → List Text
walk_from previous [] = []
walk_from previous (e ∷ es) = elim (e.url_path) [
  | none ↦ walk_from previous es
  | some path ↦
      let rest = walk_from (some path) es in if is_path previous path then rest else path ∷ rest
]

unfoldable pub session_walk : SessionTimeline → List Text
unfolding walk_from order_timeline text_eq
session_walk session = walk_from none (order_timeline session.events)

abbrev pub or_empty : {A : Type 0} → Option (List A) → List A
or_empty none = []
or_empty (some s) = s

-- The moves of one walk, from `previous` on.
unfoldable pub record_moves :
    Option Text → List Text → List (Text × List Text) → List (Text × List Text)
unfolding map_get map_set
record_moves previous [] transitions = transitions
record_moves none (path ∷ walk) transitions = record_moves (some path) walk transitions
record_moves (some from) (path ∷ walk) transitions = record_moves (some path) walk (
    map_set text_eq from (set_add text_eq path (or_empty (map_get text_eq from transitions)))
      transitions)

unfoldable pub collect_moves : List (List Text) → List (Text × List Text) → List (Text × List Text)
unfolding record_moves
collect_moves [] transitions = transitions
collect_moves (walk ∷ walks) transitions = collect_moves walks (record_moves none walk transitions)

unfoldable pub transitions_of : List (List Text) → List (Text × List Text)
unfolding collect_moves
transitions_of walks = collect_moves walks []

abbrev pub same_version : Option ℕ → Option ℕ → Bool
same_version none none = true
same_version (some a) (some b) = a == b
same_version _ _ = false

-- The version that all agree on; `first ?? null` when there is none.
abbrev pub unanimous : List (Option ℕ) → Option ℕ
unanimous [] = none
unanimous (first ∷ rest) = if all (first ∷ rest) (λ v. same_version v first) then first else none

abbrev pub is_at : Text → TimelineEvent → Bool
is_at surface e = elim (e.url_path) [ none ↦ false | some path ↦ text_eq path surface ]

unfoldable pub surface_normalisation_version_of : List SessionTimeline → Text → Option ℕ
unfolding text_eq
surface_normalisation_version_of sessions surface = unanimous (
    map (λ (e : TimelineEvent). e.url_path_normalisation_version)
      (filter (is_at surface) (all_events sessions)))
