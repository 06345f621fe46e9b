-- ===== src/Spine/Steps.antt =====
-- packages/core/src/spine/spine.ts, types.ts: the steps that sessions share after a page, in the order
-- in which they are typically met, and where a session stands on them. A typical offset is the median,
-- which is a multiple of a half: the model holds twice the median.
pub mod Laws
use growthmind.Prelude.{
  ℕ, ◌+◌, ◌*◌, ◌/◌, ◌%◌, ◌-◌, Text, text_eq, compare_texts, Bool, true, false, not, ◌||◌, Option,
  none, some, List, [], ◌∷◌, ◌++◌, map, filter, any, length, is_empty, get_last?, drop, head?,
  map_get, map_set, map_values, to_sorted, to_set, set_has, set_add, Sign, compare_numbers,
  ◌then_by◌, leb, ltb, ◌==◌, if◌then◌else◌,
}
use growthmind.Counts.{percent_scale}
use growthmind.Detect.Types.{SessionTimeline}
use growthmind.Spine.Walk.{session_walk, surface_normalisation_version_of, or_empty}

abbrev pub step_spine_version : ℕ
step_spine_version = 1

abbrev pub spine_min_reach_ratio_percent : ℕ
spine_min_reach_ratio_percent = 50

pub record SpineIdentity : Type 0 where
  pub surface : Text
  pub surface_normalisation_version : Option ℕ
  pub spine_version : ℕ

pub record SpineStep : Type 0 where
  pub path : Text
  pub index : ℕ
  pub sessions_reaching : ℕ

pub record StepSpine : Type 0 where
  pub identity : SpineIdentity
  pub min_reach_ratio_percent : ℕ
  pub branching : Bool
  pub steps : List SpineStep

pub record SessionPlacement : Type 0 where
  pub session_id : Text
  pub deepest_visited_index : Option ℕ
  pub visited_indexes : List ℕ
  pub origin_visits : ℕ

-- `sorted[index]`; every caller's index is inside.
abbrev pub value_at : List ℕ → ℕ → ℕ
value_at values index = elim (head? (drop index values)) [ none ↦ 0 | some v ↦ v ]

-- Twice the median of values that are there.
unfoldable pub twice_median : List ℕ → ℕ
unfolding to_sorted
twice_median values =
    let sorted = to_sorted compare_numbers values in
    let middle = length sorted / 2 in
    if length sorted % 2 == 0
    then value_at sorted (middle - 1) + value_at sorted middle
    else 2 * value_at sorted middle

abbrev pub has_path : Text → List Text → Bool
has_path surface walk = any walk (λ path. text_eq path surface)

-- The map from a session's identifier to its walk: a later session of the same one takes its place.
unfoldable pub walk_by_session :
    List SessionTimeline → List (Text × List Text) → List (Text × List Text)
unfolding map_set session_walk
walk_by_session [] walks = walks
walk_by_session (session ∷ sessions) walks =
    walk_by_session sessions (map_set text_eq session.session_id (session_walk session) walks)

unfoldable pub walks_reaching : List SessionTimeline → Text → List (List Text)
unfolding walk_by_session
walks_reaching sessions surface =
    filter (has_path surface) (map_values text_eq (walk_by_session sessions []))

-- `walk.slice(walk.indexOf(surface))`, of a walk that holds the page.
unfoldable pub from_first : Text → List Text → List Text
unfolding text_eq
from_first surface [] = []
from_first surface (path ∷ walk) =
    let rest = from_first surface walk in if text_eq path surface then path ∷ walk else rest

-- The loop over one walk: `seen` are the pages met before, `offset` the place.
unfoldable pub record_offsets :
    Text → ℕ → List Text → List Text → List (Text × List ℕ) → List (Text × List ℕ)
unfolding map_get map_set text_eq
record_offsets surface offset seen [] offsets = offsets
record_offsets surface offset seen (path ∷ walk) offsets =
    let skipped = record_offsets surface (offset + 1) seen walk offsets in
    let recorded =
      record_offsets surface (offset + 1) (path ∷ seen) walk
        (map_set text_eq path (or_empty (map_get text_eq path offsets) ++ offset ∷ []) offsets) in
    if text_eq path surface || has_path path seen then skipped else recorded

unfoldable pub first_offsets_from_origin :
    Text → List (List Text) → List (Text × List ℕ) → List (Text × List ℕ)
unfolding record_offsets from_first
first_offsets_from_origin surface [] offsets = offsets
first_offsets_from_origin surface (walk ∷ walks) offsets =
    first_offsets_from_origin surface walks
      (record_offsets surface 0 [] (from_first surface walk) offsets)

-- A page with its typical offset, before it has a rank.
pub record RankedStep : Type 0 where
  pub path : Text
  pub twice_typical_offset : ℕ
  pub sessions_reaching : ℕ

abbrev pub to_ranked_step : Text × List ℕ → RankedStep
to_ranked_step (path, offsets) = record {
  path = path;
  twice_typical_offset = twice_median offsets;
  sessions_reaching = length offsets;
}

abbrev pub is_reached_enough : ℕ → ℕ → RankedStep → Bool
is_reached_enough min_percent walks step =
    leb (min_percent * walks) (step.sessions_reaching * percent_scale)

abbrev pub compare_steps : RankedStep → RankedStep → Sign
compare_steps left right =
    compare_numbers left.twice_typical_offset right.twice_typical_offset
    then_by (compare_numbers right.sessions_reaching left.sessions_reaching
        then_by compare_texts left.path right.path)

-- `rankedOffset === null || step.typicalOffset !== rankedOffset`
abbrev pub opens_rank : Option ℕ → ℕ → Bool
opens_rank none offset = true
opens_rank (some ranked) offset = not (offset == ranked)

-- The loop that gives ranks: steps of one typical offset share a rank.
unfoldable pub rank_steps : ℕ → Option ℕ → List RankedStep → List SpineStep
rank_steps rank ranked_offset [] = []
rank_steps rank ranked_offset (step ∷ steps) =
    let next_rank : ℕ =
      if opens_rank ranked_offset step.twice_typical_offset then rank + 1 else rank in
    record { path = step.path; index = next_rank; sessions_reaching = step.sessions_reaching }
    ∷ rank_steps next_rank (some step.twice_typical_offset) steps

abbrev pub ranked_steps : ℕ → List (List Text) → Text → List RankedStep
ranked_steps min_percent walks surface = to_sorted compare_steps (
    filter (is_reached_enough min_percent (length walks))
      (map to_ranked_step (first_offsets_from_origin surface walks [])))

abbrev pub origin_step : Text → ℕ → SpineStep
origin_step surface reaching = record { path = surface; index = 0; sessions_reaching = reaching }

abbrev pub steps_of : ℕ → List (List Text) → Text → List SpineStep
steps_of min_percent walks surface =
    origin_step surface (length walks) ∷ rank_steps 0 none (ranked_steps min_percent walks surface)

-- `options.minReachRatioPercent ?? SPINE_MIN_REACH_RATIO_PERCENT`
abbrev pub or_default : Option ℕ → ℕ → ℕ
or_default none n = n
or_default (some m) n = m

abbrev pub is_branching : List SpineStep → Bool
is_branching steps =
    not (length (to_set ◌==◌ (map (λ (s : SpineStep). s.index) steps)) == length steps)

unfoldable pub build_step_spine : List SessionTimeline → Text → Option ℕ → StepSpine
unfolding walks_reaching first_offsets_from_origin rank_steps twice_median to_sorted compare_texts
    to_set
build_step_spine sessions surface min_reach_ratio_percent =
    let min_percent = or_default min_reach_ratio_percent spine_min_reach_ratio_percent in
    let steps = steps_of min_percent (walks_reaching sessions surface) surface in
    record {
      identity = record {
        surface = surface;
        surface_normalisation_version = surface_normalisation_version_of sessions surface;
        spine_version = step_spine_version;
      };
      min_reach_ratio_percent = min_percent;
      branching = is_branching steps;
      steps = steps;
    }

-- The map from a step's page to its rank.
unfoldable pub index_by_path : List SpineStep → List (Text × ℕ) → List (Text × ℕ)
unfolding map_set
index_by_path [] indexes = indexes
index_by_path (step ∷ steps) indexes =
    index_by_path steps (map_set text_eq step.path step.index indexes)

abbrev pub add_index : Option ℕ → List ℕ → List ℕ
add_index none visited = visited
add_index (some index) visited = set_add ◌==◌ index visited

unfoldable pub visit_steps : List (Text × ℕ) → List Text → List ℕ → List ℕ
unfolding map_get text_eq
visit_steps indexes [] visited = visited
visit_steps indexes (path ∷ walk) visited =
    visit_steps indexes walk (add_index (map_get text_eq path indexes) visited)

abbrev pub visited_of : List (Text × ℕ) → Text → List Text → List ℕ
visited_of indexes origin walk =
    if ltb 0 (length (filter (λ path. text_eq path origin) walk))
    then visit_steps indexes (from_first origin walk) []
    else []

unfoldable pub place_session : StepSpine → SessionTimeline → SessionPlacement
unfolding index_by_path visit_steps from_first session_walk to_sorted text_eq
place_session spine session =
    let walk = session_walk session in
    let origin = spine.identity.surface in
    let visited_indexes =
      to_sorted compare_numbers (visited_of (index_by_path spine.steps []) origin walk) in
    record {
      session_id = session.session_id;
      deepest_visited_index = get_last? visited_indexes;
      visited_indexes = visited_indexes;
      origin_visits = length (filter (λ path. text_eq path origin) walk);
    }

abbrev pub place_on_spine : StepSpine → List SessionTimeline → List SessionPlacement
place_on_spine spine sessions = map (place_session spine) sessions
