-- ===== src/Spine/Steps/Laws.antt =====
-- packages/core/src/spine/spine.ts: the ranks of a spine and the sessions that reach its steps.
use growthmind.Prelude.{
  ◌<◌, ℕ, ◌+◌, ◌*◌, ◌≤◌, ◌≡◌, ◌⊎◌, refl, Text, text_eq, text_eq_refl, true, false, ◌||◌, Option,
  none, List, [], ◌∷◌, ◌++◌, All, map, filter, length, length-append, map_get, map_set,
  All-to_sorted, leb→le, if◌then◌else◌, arith, Bool-cases, Option-cases, inl, inr, AllEntries,
  AllEntries-map_set, AllEntries-map_get, AllEntries-imply,
}
use growthmind.Counts.{percent_scale}
use growthmind.Detect.Types.{SessionTimeline}
use growthmind.Spine.Walk.{or_empty}
use growthmind.Spine.Steps.{
  SpineStep, RankedStep, has_path, record_offsets, first_offsets_from_origin, from_first,
  to_ranked_step, is_reached_enough, compare_steps, rank_steps, opens_rank, ranked_steps,
  origin_step, walks_reaching, steps_of, or_default, spine_min_reach_ratio_percent,
  build_step_spine,
}

-- A rank is the one before it or the next.
abbrev pub IsContiguous : ℕ → List SpineStep → Type 0
IsContiguous rank [] = Unit
IsContiguous rank (step ∷ steps) =
    ((step.index ≡ rank) ⊎ (step.index ≡ rank + 1)) × IsContiguous step.index steps

rank_steps-IsContiguous :
    (rank : ℕ) (o : Option ℕ) (steps : List RankedStep)
    → IsContiguous rank (rank_steps rank o steps)
unfolding rank_steps
rank_steps-IsContiguous rank o [] = tt
rank_steps-IsContiguous rank o (step ∷ steps) =
    elim (Bool-cases (opens_rank o step.twice_typical_offset)) [
      | inl e ↦ rw e (inr refl, rank_steps-IsContiguous (rank + 1) _ steps)
      | inr e ↦ rw e (inl refl, rank_steps-IsContiguous rank _ steps)
    ]

-- How often a page is recorded while the walk that `seen` belongs to is read: at most once by each of
-- the `n` walks before, and once by this one if the page was seen on it.
abbrev IsBounded : ℕ → List Text → Text → List ℕ → Type 0
IsBounded n seen path offsets = length offsets ≤ n + (if has_path path seen then 1 else 0)

has_path-cons :
    (path q : Text) (seen : List Text) → has_path path seen ≡ true → has_path path (q ∷ seen) ≡ true
has_path-cons path q seen h = ground arith

IsBounded-more :
    (n : ℕ) (seen : List Text) (q path : Text) (offsets : List ℕ)
    → IsBounded n seen path offsets
    → IsBounded n (q ∷ seen) path offsets
IsBounded-more n seen q path offsets h = ground arith

or_empty-bounded :
    (n : ℕ) (path : Text) (seen : List Text) (offsets : List (Text × List ℕ))
    → has_path path seen ≡ false
    → AllEntries (IsBounded n seen) offsets
    → length (or_empty (map_get text_eq path offsets)) ≤ n
or_empty-bounded n path seen offsets new h = elim (Option-cases (map_get text_eq path offsets)) [
  | inl e ↦ rw e (omega arith)
  | inr (found, e) ↦
      let bound = AllEntries-map_get (IsBounded n seen) path offsets h e in
      rw e (omega (arith, rw new at bound))
]

has_path-head : (path : Text) (seen : List Text) → has_path path (path ∷ seen) ≡ true
has_path-head path seen = rw (text_eq_refl path)

-- One walk, from `offset` on.
record_offsets-bounded :
    (n : ℕ) (surface : Text) (offset : ℕ) (seen walk : List Text) (offsets : List (Text × List ℕ))
    → AllEntries (IsBounded n seen) offsets
    → AllEntries
        (λ path found. length found ≤ n + 1)
        (record_offsets surface offset seen walk offsets)
unfolding record_offsets
record_offsets-bounded n surface offset seen [] offsets h =
    AllEntries-imply (IsBounded n seen) (λ path found. length found ≤ n + 1) offsets
      (λ path found bound. ground arith) h
record_offsets-bounded n surface offset seen (path ∷ walk) offsets h =
    elim (Bool-cases (text_eq path surface || has_path path seen)) [
      | inl skip ↦ rw skip (record_offsets-bounded n surface (offset + 1) seen walk offsets h)
      | inr new ↦ rw new (
          record_offsets-bounded n surface (offset + 1) (path ∷ seen) walk
            (map_set text_eq path (or_empty (map_get text_eq path offsets) ++ offset ∷ []) offsets)
            (AllEntries-map_set (IsBounded n seen) (IsBounded n (path ∷ seen)) path
              (or_empty (map_get text_eq path offsets) ++ offset ∷ []) offsets
              (λ q found. IsBounded-more n seen path q found) h
              (rw (has_path-head path seen) (
                omega (
                  arith,
                  length-append {0} (or_empty (map_get text_eq path offsets)) (offset ∷ []),
                  or_empty-bounded n path seen offsets (ground arith) h,
                )))))
    ]

unseen-IsBounded :
    (n : ℕ) (offsets : List (Text × List ℕ))
    → AllEntries (λ path found. length found ≤ n) offsets
    → AllEntries (IsBounded n []) offsets
unseen-IsBounded n offsets h =
    AllEntries-imply (λ path found. length found ≤ n) (IsBounded n []) offsets
      (λ path found bound. omega arith) h

first_offsets-bounded :
    (n : ℕ) (surface : Text) (walks : List (List Text)) (offsets : List (Text × List ℕ))
    → AllEntries (λ path found. length found ≤ n) offsets
    → AllEntries
        (λ path found. length found ≤ n + length walks)
        (first_offsets_from_origin surface walks offsets)
unfolding first_offsets_from_origin
first_offsets-bounded n surface [] offsets h =
    AllEntries-imply (λ path found. length found ≤ n) (λ path found. length found ≤ n + 0) offsets
      (λ path found bound. omega arith) h
first_offsets-bounded n surface (walk ∷ walks) offsets h =
    let recorded = record_offsets surface 0 [] (from_first surface walk) offsets in
    AllEntries-imply (λ path found. length found ≤ n + 1 + length walks)
      (λ path found. length found ≤ n + length (walk ∷ walks))
      (first_offsets_from_origin surface walks recorded) (λ path found bound. omega arith)
      (first_offsets-bounded (n + 1) surface walks recorded (
        record_offsets-bounded n surface 0 [] (from_first surface walk) offsets
          (unseen-IsBounded n offsets h)))

-- A count of sessions that is no more than all of them, and the share of them that is asked for.
abbrev pub IsReached : ℕ → ℕ → ℕ → Type 0
IsReached min_percent walks reaching =
    (reaching ≤ walks) × (min_percent * walks ≤ reaching * percent_scale)

ranked-bounded :
    (walks : ℕ) (offsets : List (Text × List ℕ))
    → AllEntries (λ path found. length found ≤ walks) offsets
    → All (λ (r : RankedStep). r.sessions_reaching ≤ walks) (map to_ranked_step offsets)
ranked-bounded walks [] h = tt
ranked-bounded walks ((path, found) ∷ offsets) h = (h.0, ranked-bounded walks offsets h.1)

filter-IsReached :
    (min_percent walks : ℕ) (steps : List RankedStep)
    → All (λ (r : RankedStep). r.sessions_reaching ≤ walks) steps
    → All
        (λ (r : RankedStep). IsReached min_percent walks r.sessions_reaching)
        (filter (is_reached_enough min_percent walks) steps)
filter-IsReached min_percent walks [] h = tt
filter-IsReached min_percent walks (r ∷ steps) h =
    elim (Bool-cases (is_reached_enough min_percent walks r)) [
      | inl e ↦ rw e ((h.0, leb→le _ _ e), filter-IsReached min_percent walks steps h.1)
      | inr e ↦ rw e (filter-IsReached min_percent walks steps h.1)
    ]

rank_steps-All :
    (P : ℕ → Type 0) (steps : List RankedStep) (rank : ℕ) (o : Option ℕ)
    → All (λ (r : RankedStep). P r.sessions_reaching) steps
    → All (λ (s : SpineStep). P s.sessions_reaching) (rank_steps rank o steps)
unfolding rank_steps
rank_steps-All P [] rank o h = tt
rank_steps-All P (r ∷ steps) rank o h = (h.0, rank_steps-All P steps _ _ h.1)

-- The first step is the page itself, at rank nought, reached by every walk; the others follow by rank.
abbrev pub IsSpine : ℕ → ℕ → Text → List SpineStep → Type 0
IsSpine min_percent walks surface [] = ⊥
IsSpine min_percent walks surface (origin ∷ steps) =
    (origin ≡ origin_step surface walks)
    × IsContiguous 0 steps
    × All (λ (s : SpineStep). 0 < s.index) steps
    × All (λ (s : SpineStep). IsReached min_percent walks s.sessions_reaching) steps

rank_steps_pos :
    (steps : List RankedStep) (rank : ℕ) (o : Option ℕ)
    → 0 < rank
    → All (λ (s : SpineStep). 0 < s.index) (rank_steps rank o steps)
unfolding rank_steps
rank_steps_pos [] rank o h = tt
rank_steps_pos (r ∷ steps) rank o h = (ground arith, rank_steps_pos steps _ _ (ground arith))

rank_steps-first_pos :
    (steps : List RankedStep) → All (λ (s : SpineStep). 0 < s.index) (rank_steps 0 none steps)
unfolding rank_steps
rank_steps-first_pos [] = tt
rank_steps-first_pos (r ∷ steps) = (omega arith, rank_steps_pos steps 1 _ (omega arith))

steps_of-IsSpine :
    (min_percent : ℕ) (walks : List (List Text)) (surface : Text)
    → IsSpine min_percent (length walks) surface (steps_of min_percent walks surface)
steps_of-IsSpine min_percent walks surface =
    let ranked = ranked_steps min_percent walks surface in
    let offsets = first_offsets_from_origin surface walks [] in
    (
      refl,
      rank_steps-IsContiguous 0 none ranked,
      rank_steps-first_pos ranked,
      rank_steps-All (IsReached min_percent (length walks)) ranked 0 none (
          All-to_sorted compare_steps
            (λ (r : RankedStep). IsReached min_percent (length walks) r.sessions_reaching)
            (filter (is_reached_enough min_percent (length walks)) (map to_ranked_step offsets))
            (filter-IsReached min_percent (length walks) (map to_ranked_step offsets) (
              ranked-bounded (length walks) offsets (
                AllEntries-imply (λ path found. length found ≤ 0 + length walks)
                  (λ path found. length found ≤ length walks) offsets (λ path found h. omega arith)
                  (first_offsets-bounded 0 surface walks [] tt))))),
    )

-- A spine starts at its page, which is rank nought and is reached by every walk that counts. The ranks
-- of the other steps start at one and never skip one, and a step is reached by no more sessions than
-- there are walks, and by the share of them that was asked for.
pub build_step_spine-IsSpine :
    (sessions : List SessionTimeline) (surface : Text) (min_reach_ratio_percent : Option ℕ)
    → IsSpine
        (or_default min_reach_ratio_percent spine_min_reach_ratio_percent)
        (length (walks_reaching sessions surface))
        surface
        (build_step_spine sessions surface min_reach_ratio_percent).steps
unfolding build_step_spine
build_step_spine-IsSpine sessions surface min_reach_ratio_percent =
    steps_of-IsSpine (or_default min_reach_ratio_percent spine_min_reach_ratio_percent)
      (walks_reaching sessions surface) surface
