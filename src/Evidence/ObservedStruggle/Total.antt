-- ===== src/Evidence/ObservedStruggle/Total.antt =====
-- packages/core/src/evidence/observed-struggle.ts: the counts of its candidates.
use growthmind.Prelude.{
  AllEntries, AllEntries-map_set, AllEntries-map_get, AllEntries-imply, keys, Distinct,
  Distinct-map_set, ℕ, suc, ◌≤◌, ◌≡◌, refl, Text, text_eq, text_eq_iff, text_eq_refl, Bool, true,
  false, ◌||◌, Option, none, some, List, [], ◌∷◌, filter, any, length, All, length-append,
  length-filter-le, length-filter_more, any_imply, arith, Bool-cases, inl, inr, if◌then◌else◌,
  Returns, bind_total, traverse_total, map_get, map_set, set_add, set_has, length-set_add,
}
use growthmind.Rules.{ThresholdRuleSet}
use growthmind.Platform.{Platform}
use growthmind.Replay.Types.{SessionAction}
use growthmind.Detect.Types.{DetectorCorpus, DetectorCoverage, SessionTimeline, SessionReplay}
use growthmind.Detect.Analysed.{analysed_sessions}
use growthmind.Detect.Corpus.{IsSound, count_of_total}
use growthmind.Evidence.ObservedStruggle.{
  Surfaces, add_tally, add_visited, tally_replays, or_no_replays, WinningSubkind,
  struggle_candidate, candidate_at, winning_subkind, observed_surfaces,
  observed_struggle_candidates,
}
use growthmind.Evidence.StruggleTally.{
  ObservedBeat, SessionTally, SurfaceAccumulator, Visited, visit, observe, tally_actions,
  surface_after, observed_beat_of, visited_page, accumulator_or_empty,
}
use growthmind.Evidence.ObservedStruggle.Laws.{IsWinner, winning_subkind-IsWinner}

visit-Distinct : (page : Option Text) (m : Visited) → Distinct m → Distinct (visit page m)
visit-Distinct none m h = h
visit-Distinct (some surface) m h = Distinct-map_set surface _ m h

observe-Distinct :
    (current : Option Text) (beat : Option ObservedBeat) (m : Visited)
    → Distinct m
    → Distinct (observe current beat m)
observe-Distinct none beat m h = h
observe-Distinct (some surface) none m h = h
observe-Distinct (some surface) (some beat) m h = Distinct-map_set surface _ m h

tally_actions-Distinct :
    (W : Platform) (current : Option Text) (actions : List SessionAction) (m : Visited)
    → Distinct m
    → Distinct (tally_actions W current actions m)
unfolding tally_actions
tally_actions-Distinct W current [] m h = h
tally_actions-Distinct W current (action ∷ actions) m h =
    tally_actions-Distinct W (surface_after W current action) actions
      (observe current (observed_beat_of action) (visit (visited_page W action) m))
      (observe-Distinct current (observed_beat_of action) (visit (visited_page W action) m)
        (visit-Distinct (visited_page W action) m h))

-- One more for a surface that the session at hand has been counted on.
abbrev allowance : ℕ → List Text → Text → ℕ
allowance n done k = if any done (λ j. text_eq k j) then suc n else n

abbrev Fits : ℕ → List Text → Text → SurfaceAccumulator → Type 0
Fits n done k accumulator =
    (length accumulator.tallies ≤ allowance n done k)
    × (accumulator.reached_sessions ≤ allowance n done k)

abbrev Within : ℕ → Text → SurfaceAccumulator → Type 0
Within n k accumulator = (length accumulator.tallies ≤ n) × (accumulator.reached_sessions ≤ n)

Fits-later :
    (n : ℕ) (done : List Text) (surface k : Text) (accumulator : SurfaceAccumulator)
    → Fits n done k accumulator
    → Fits n (surface ∷ done) k accumulator
Fits-later n done surface k accumulator h = ground arith

Fits-add_tally :
    (n : ℕ) (done : List Text) (surface : Text) (tally : SessionTally)
    (found : Option SurfaceAccumulator)
    → any done (λ j. text_eq surface j) ≡ false
    → ((a : SurfaceAccumulator) → found ≡ some a → Fits n done surface a)
    → Fits n (surface ∷ done) surface (add_tally tally (accumulator_or_empty found))
Fits-add_tally n done surface tally none fresh h =
    rw (text_eq_refl surface) (omega arith, omega arith)
Fits-add_tally n done surface tally (some a) fresh h =
    let (few, reached) = rw fresh at (h a refl) in
    rw (text_eq_refl surface) (omega (arith, length-append a.tallies (tally ∷ [])), omega arith)

fresh_later :
    (surface : Text) (done : List Text) (ks : List Text)
    → All (λ j. text_eq j surface ≡ false) ks
    → All (λ k. any done (λ j. text_eq k j) ≡ false) ks
    → All (λ k. any (surface ∷ done) (λ j. text_eq k j) ≡ false) ks
fresh_later surface done [] h g = tt
fresh_later surface done (k ∷ ks) h g = (ground arith, fresh_later surface done ks h.1 g.1)

add_visited-Within :
    (n : ℕ) (done : List Text) (visited : Visited) (surfaces : Surfaces)
    → Distinct visited
    → All (λ k. any done (λ j. text_eq k j) ≡ false) (keys visited)
    → AllEntries (Fits n done) surfaces
    → AllEntries (Within (suc n)) (add_visited visited surfaces)
unfolding add_visited
add_visited-Within n done [] surfaces distinct fresh h =
    AllEntries-imply (Fits n done) (Within (suc n)) surfaces (λ k a f. ground arith) h
add_visited-Within n done ((surface, tally) ∷ visited) surfaces distinct fresh h =
    add_visited-Within n (surface ∷ done) visited
      (map_set text_eq surface
        (add_tally tally (accumulator_or_empty (map_get text_eq surface surfaces))) surfaces)
      distinct.1 (fresh_later surface done (keys visited) distinct.0 fresh.1)
      (AllEntries-map_set (Fits n done) (Fits n (surface ∷ done)) surface _ surfaces
        (λ k a f. Fits-later n done surface k a f) h
        (Fits-add_tally n done surface tally (map_get text_eq surface surfaces) fresh.0
          (λ a e. AllEntries-map_get (Fits n done) surface surfaces h e)))

add_visited-counts :
    (n : ℕ) (visited : Visited) (surfaces : Surfaces)
    → Distinct visited
    → AllEntries (Within n) surfaces
    → AllEntries (Within (suc n)) (add_visited visited surfaces)
add_visited-counts n visited surfaces distinct h =
    add_visited-Within n [] visited surfaces distinct (none_done (keys visited))
      (AllEntries-imply (Within n) (Fits n []) surfaces (λ k a f. f) h)
  where
    none_done : (ks : List Text) → All (λ k. any [] (λ j. text_eq k j) ≡ false) ks
    none_done [] = tt
    none_done (k ∷ ks) = (refl, none_done ks)

-- The sessions kept that have been read.
abbrev read_of : List Text → SessionTimeline → Bool
read_of tallied s = set_has text_eq s.session_id tallied

set_has-text_set_add :
    (id q : Text) (s : List Text)
    → set_has text_eq q (set_add text_eq id s) ≡ (set_has text_eq q s || text_eq id q)
set_has-text_set_add id q [] = ground arith
set_has-text_set_add id q (j ∷ s) = elim (Bool-cases (text_eq j id)) [
  | inl e ↦ rw (e, (text_eq_iff j id).0 e) (ground arith)
  | inr e ↦ rw e (ground (arith, set_has-text_set_add id q s))
]

one_more_read :
    (kept : List SessionTimeline) (id : Text) (tallied : List Text)
    → any kept (λ s. text_eq s.session_id id) ≡ true
    → set_has text_eq id tallied ≡ false
    → suc (length (filter (read_of tallied) kept))
      ≤ length (filter (read_of (set_add text_eq id tallied)) kept)
one_more_read kept id tallied member fresh =
    length-filter_more (read_of tallied) (read_of (set_add text_eq id tallied)) kept
      (λ s h. ground (arith, set_has-text_set_add id s.session_id tallied))
      (any_imply kept (λ s. text_eq s.session_id id) _
        (λ s h.
          rw
            (
              (text_eq_iff s.session_id id).0 h,
              set_has-text_set_add id id tallied,
              text_eq_refl id,
              fresh,
            )
            refl)
        member)

tally_replays-Within :
    (W : Platform) (kept : List SessionTimeline) (replays : List SessionReplay)
    (tallied : List Text) (surfaces : Surfaces)
    → length tallied ≤ length (filter (read_of tallied) kept)
    → AllEntries (Within (length tallied)) surfaces
    → AllEntries (Within (length kept)) (tally_replays W kept replays tallied surfaces)
unfolding tally_replays
tally_replays-Within W kept [] tallied surfaces few h =
    AllEntries-imply (Within (length tallied)) (Within (length kept)) surfaces
      (λ k a f. let le = length-filter-le (read_of tallied) kept in (omega arith, omega arith)) h
tally_replays-Within W kept (replay ∷ replays) tallied surfaces few h =
    elim (Bool-cases (any kept (λ s. text_eq s.session_id replay.session_id))) [
      | inr e ↦ rw e (tally_replays-Within W kept replays tallied surfaces few h)
      | inl member ↦ elim (Bool-cases (set_has text_eq replay.session_id tallied)) [
        | inl e ↦ rw (member, e) (tally_replays-Within W kept replays tallied surfaces few h)
        | inr fresh ↦
            rw (member, fresh)
              (tally_replays-Within W kept replays (set_add text_eq replay.session_id tallied) _
                (read_few member fresh) (surfaces_within fresh))
      ]
    ]
  where
    size :
        set_has text_eq replay.session_id tallied ≡ false
        → length (set_add text_eq replay.session_id tallied) ≡ suc (length tallied)
    size fresh = rw fresh at (length-set_add text_eq replay.session_id tallied)

    read_few :
        any kept (λ s. text_eq s.session_id replay.session_id) ≡ true
        → set_has text_eq replay.session_id tallied ≡ false
        → length (set_add text_eq replay.session_id tallied)
          ≤ length (filter (read_of (set_add text_eq replay.session_id tallied)) kept)
    read_few member fresh =
        omega (arith, size fresh, one_more_read kept replay.session_id tallied member fresh)

    surfaces_within :
        set_has text_eq replay.session_id tallied ≡ false
        → AllEntries
            (Within (length (set_add text_eq replay.session_id tallied)))
            (add_visited (tally_actions W none replay.transcript.actions []) surfaces)
    surfaces_within fresh = rw (size fresh) (
        add_visited-counts (length tallied) _ surfaces
          (tally_actions-Distinct W none replay.transcript.actions [] tt) h)

-- Every surface was reached by at most the sessions kept.
observed_surfaces-Within :
    (W : Platform) (corpus : DetectorCorpus)
    → AllEntries (Within (length (analysed_sessions corpus).kept)) (observed_surfaces W corpus)
unfolding observed_surfaces
observed_surfaces-Within W corpus =
    tally_replays-Within W (analysed_sessions corpus).kept (or_no_replays corpus.replays) [] []
      (omega arith) tt

struggle_candidate_total :
    (corpus : DetectorCorpus) (coverage : DetectorCoverage) (surface : Text)
    (accumulator : SurfaceAccumulator) (rules : ThresholdRuleSet) (winner : Option WinningSubkind)
    → IsSound corpus
    → Within (length (analysed_sessions corpus).kept) surface accumulator
    → ((w : WinningSubkind) → winner ≡ some w → IsWinner accumulator.tallies rules w)
    → Returns (struggle_candidate corpus coverage surface accumulator winner)
unfolding struggle_candidate
struggle_candidate_total corpus coverage surface accumulator rules none sound h win = (none, refl)
struggle_candidate_total corpus coverage surface accumulator rules (some w) sound h win =
    let few = (win w refl).sessions_of_tallies in
    let struggling = count_of_total corpus w.qualifying_sessions sound (omega arith) in
    let reached = count_of_total corpus accumulator.reached_sessions sound (omega arith) in
    bind_total _ _ struggling
      (λ s. bind_total _ _ reached (λ r. bind_total _ _ struggling (λ q. (_, refl))))

candidates_total :
    (corpus : DetectorCorpus) (rules : ThresholdRuleSet) (coverage : DetectorCoverage)
    (surfaces : Surfaces)
    → IsSound corpus
    → AllEntries (Within (length (analysed_sessions corpus).kept)) surfaces
    → All (λ e. Returns (candidate_at corpus rules coverage e)) surfaces
candidates_total corpus rules coverage [] sound h = tt
candidates_total corpus rules coverage ((surface, accumulator) ∷ surfaces) sound h = (
  struggle_candidate_total corpus coverage surface accumulator rules
      (winning_subkind accumulator.tallies rules) sound h.0
      (λ w e. winning_subkind-IsWinner accumulator.tallies rules e),
  candidates_total corpus rules coverage surfaces sound h.1,
)

-- On a corpus whose basis accounts for its window and counts the sessions kept, the candidates for
-- observed struggle are returned: no count among them is refused, however many recordings a session
-- has and whatever they hold.
pub observed_struggle_candidates_total :
    (W : Platform) (corpus : DetectorCorpus) (rules : ThresholdRuleSet)
    → IsSound corpus
    → Returns (observed_struggle_candidates W corpus rules)
unfolding observed_struggle_candidates
observed_struggle_candidates_total W corpus rules sound =
    let coverage = (analysed_sessions corpus).coverage in
    bind_total _ _
      (traverse_total (candidate_at corpus rules coverage) (observed_surfaces W corpus) (
        candidates_total corpus rules coverage (observed_surfaces W corpus) sound
          (observed_surfaces-Within W corpus)))
      (λ found. (_, refl))
