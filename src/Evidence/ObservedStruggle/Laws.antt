-- ===== src/Evidence/ObservedStruggle/Laws.antt =====
-- packages/core/src/evidence/observed-struggle.ts: the candidates of a page beside the gate's predicate.
use growthmind.Prelude.{
  ℕ, ◌≤◌, ◌≡◌, refl, Text, Bool, true, false, Option, none, some, List, [], ◌∷◌, map, filter,
  length, is_empty, leb, All, All-filter, length-filter-le, length-map, arith, traverse,
  traverse-All, bind-eq-some,
}
use growthmind.Counts.{MeasuredCount}
use growthmind.Counts.Laws.{measured_count_sound}
use growthmind.Rules.{ThresholdRuleSet, proposes_confusing}
use growthmind.Platform.{Platform}
use growthmind.Evidence.Signals.{StruggleSubkind, struggle}
use growthmind.Evidence.Predicates.{struggle_satisfied}
use growthmind.Detect.Types.{DetectorCorpus, DetectorCoverage, DetectorCandidate}
use growthmind.Detect.Analysed.{analysed_sessions}
use growthmind.Detect.Funnel.{count_of}
use growthmind.Evidence.ObservedStruggle.{
  WinningSubkind, first_winning, winning_subkind, struggle_candidate, observed_candidate,
  candidate_at, collect_some, observed_surfaces, observed_struggle_candidates,
}
use growthmind.Evidence.StruggleTally.{
  ObservedStruggleSubkind, subkind_of, SessionTally, SurfaceAccumulator, largest_of, magnitude_of,
  threshold_of, subkinds_by_precedence, saw_rage_click, saw_dead_click, saw_field_abandoned,
  saw_field_refocus, saw_scroll_back,
}

largest_of-ge :
    (least : ℕ) (vs : List ℕ)
    → All (λ v. leb least v ≡ true) vs
    → is_empty vs ≡ false
    → least ≤ largest_of vs
largest_of-ge least [] h e = cc
largest_of-ge least (v ∷ vs) h e = let least_le : least ≤ v = ground (arith, h.0) in omega arith

-- What a winner has reached.
pub record IsWinner (tallies : List SessionTally) (rules : ThresholdRuleSet) (w : WinningSubkind)
    : Type 0 where
  pub attempts_enough : threshold_of rules w.subkind ≤ w.attempts
  pub sessions_enough : rules.struggle_observed_min_sessions ≤ w.qualifying_sessions
  pub sessions_of_tallies : w.qualifying_sessions ≤ length tallies

first_winning-IsWinner :
    (subkinds : List ObservedStruggleSubkind) (tallies : List SessionTally)
    (rules : ThresholdRuleSet) {w : WinningSubkind}
    → first_winning subkinds tallies rules ≡ some w
    → IsWinner tallies rules w
unfolding first_winning
first_winning-IsWinner [] tallies rules h = cc
first_winning-IsWinner (subkind ∷ subkinds) tallies rules {w} h =
    let magnitudes : List ℕ = map (magnitude_of subkind) tallies in
    let p : ℕ → Bool = leb (threshold_of rules subkind) in
    ground (
      arith,
      largest_of-ge (threshold_of rules subkind) (filter p magnitudes) (All-filter p magnitudes),
      length-filter-le p magnitudes,
      length-map (magnitude_of subkind) tallies,
      first_winning-IsWinner subkinds tallies rules {w = w},
    )

pub winning_subkind-IsWinner :
    (tallies : List SessionTally) (rules : ThresholdRuleSet) {w : WinningSubkind}
    → winning_subkind tallies rules ≡ some w
    → IsWinner tallies rules w
unfolding winning_subkind
winning_subkind-IsWinner tallies rules h =
    first_winning-IsWinner subkinds_by_precedence tallies rules h

-- The one signal of a candidate, which reaches what the gate asks of a struggle.
pub record IsObserved (rules : ThresholdRuleSet) (c : DetectorCandidate) : Type 0 where
  pub subkind : StruggleSubkind
  pub attempts : ℕ
  pub struggling : MeasuredCount
  pub one_signal : c.signals ≡ struggle subkind c.surface attempts struggling ∷ []
  pub claims_confusing : c.claimed_class ≡ proposes_confusing
  pub reaches : struggle_satisfied subkind attempts struggling rules ≡ true

count_of-numerator :
    (corpus : DetectorCorpus) (n : ℕ) {c : MeasuredCount}
    → count_of corpus n ≡ some c
    → c.numerator ≡ n
count_of-numerator corpus n h = let (v, e) = measured_count_sound _ h in rw e refl

winner_satisfies :
    (rules : ThresholdRuleSet) (tallies : List SessionTally) (w : WinningSubkind)
    (struggling : MeasuredCount)
    → IsWinner tallies rules w
    → struggling.numerator ≡ w.qualifying_sessions
    → struggle_satisfied (subkind_of w.subkind) w.attempts struggling rules ≡ true
unfolding struggle_satisfied
winner_satisfies rules tallies w struggling h e =
    elim (w.subkind)
        as (λ s.
          threshold_of rules s ≤ w.attempts
          → struggle_satisfied (subkind_of s) w.attempts struggling rules ≡ true) [
            | saw_rage_click ↦ λ t. ground (arith, h.sessions_enough)
            | saw_dead_click ↦ λ t. ground (arith, h.sessions_enough)
            | saw_field_abandoned ↦ λ t. ground (arith, h.sessions_enough)
            | saw_field_refocus ↦ λ t. ground (arith, h.sessions_enough)
            | saw_scroll_back ↦ λ t. ground (arith, h.sessions_enough)
          ]
      h.attempts_enough

-- What holds of a candidate, where there is one.
abbrev IfSome : {A : Type 0} → (A → Type 0) → Option A → Type 0
IfSome P none = Unit
IfSome P (some a) = P a

All-collect_some :
    {A : Type 0} (P : A → Type 0) (os : List (Option A))
    → All (IfSome P) os
    → All P (collect_some os)
All-collect_some P [] h = tt
All-collect_some P (none ∷ os) h = All-collect_some P os h.1
All-collect_some P (some a ∷ os) h = (h.0, All-collect_some P os h.1)

struggle_candidate-IsObserved :
    (corpus : DetectorCorpus) (rules : ThresholdRuleSet) (coverage : DetectorCoverage)
    (surface : Text) (accumulator : SurfaceAccumulator) (winner : Option WinningSubkind)
    → ((w : WinningSubkind) → winner ≡ some w → IsWinner accumulator.tallies rules w)
    → (found : Option DetectorCandidate)
    → struggle_candidate corpus coverage surface accumulator winner ≡ some found
    → IfSome (IsObserved rules) found
unfolding struggle_candidate
struggle_candidate-IsObserved corpus rules coverage surface accumulator none win found h =
    let e : none ≡ found = ground arith in rw (← e) tt
struggle_candidate-IsObserved corpus rules coverage surface accumulator (some w) win found h =
    let (struggling, e1, h1) = bind-eq-some (count_of corpus w.qualifying_sessions) _ h in
    let (reached, e2, h2) = bind-eq-some (count_of corpus accumulator.reached_sessions) _ h1 in
    let (qualifying, e3, h3) = bind-eq-some (count_of corpus w.qualifying_sessions) _ h2 in
    let e : some (observed_candidate corpus coverage surface w struggling reached qualifying)
        ≡ found =
      ground arith in
    rw (← e) (record {
      subkind = subkind_of w.subkind;
      attempts = w.attempts;
      struggling = struggling;
      one_signal = refl;
      claims_confusing = refl;
      reaches =
          winner_satisfies rules accumulator.tallies w struggling (win w refl)
            (count_of-numerator corpus w.qualifying_sessions e1);
    })

-- Each candidate for observed struggle claims confusion on the strength of one signal about its own
-- surface, and this signal has the attempts and the sessions that the gate asks of its kind.
pub observed_struggle_candidates-IsObserved :
    (W : Platform) (corpus : DetectorCorpus) (rules : ThresholdRuleSet)
    {candidates : List DetectorCandidate}
    → observed_struggle_candidates W corpus rules ≡ some candidates
    → All (IsObserved rules) candidates
unfolding observed_struggle_candidates
observed_struggle_candidates-IsObserved W corpus rules {candidates} h =
    let coverage = (analysed_sessions corpus).coverage in
    let (found, e, h') =
      bind-eq-some (traverse (candidate_at corpus rules coverage) (observed_surfaces W corpus)) _
        h in
    let same : collect_some found ≡ candidates = ground arith in
    rw (← same) (
      All-collect_some (IsObserved rules) found (
        traverse-All (IfSome (IsObserved rules)) (candidate_at corpus rules coverage)
          (observed_surfaces W corpus)
          (λ entry o q.
            struggle_candidate-IsObserved corpus rules coverage entry.0 entry.1
              (winning_subkind entry.1.tallies rules)
              (λ w e'. winning_subkind-IsWinner entry.1.tallies rules e') o q)
          e))
