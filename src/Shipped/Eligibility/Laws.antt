-- ===== src/Shipped/Eligibility/Laws.antt =====
-- packages/core/src/shipped/eligibility.ts: the rebuilt bases of sessions and of people.
use growthmind.Prelude.{
  ℕ, suc, ◌+◌, ◌≤◌, ◌≡◌, refl, true, not, Option, none, some, List, [], ◌∷◌, filter, length, head?,
  length-filter-le, length-filter-not, arith,
}
use growthmind.Counts.{ExclusionReason, CountBasis, labels_present}
use growthmind.Counts.Laws.{IsAccounted}
use growthmind.Counts.Breakdown.{
  count_reason, counts_total, counts_total-count_reason, set_aside_total-breakdown, all-breakdown,
}
use growthmind.Detect.Types.{SessionTimeline}
use growthmind.Detect.Analysed.{is_kept}
use growthmind.Shipped.Eligibility.{
  EligibleSession, tally_reasons, rebuild_basis, is_unchecked, PersonGroup, PeopleCounts,
  count_group, count_people, no_people, Grouped, PeopleTally, group_people, tally_of, tally_people,
}

counts_total-tally_reasons :
    (sessions : List SessionTimeline) (counts : List (ExclusionReason × ℕ))
    → counts_total (tally_reasons sessions counts)
      ≡ counts_total counts + length (filter (λ s. not (is_kept s)) sessions)
unfolding tally_reasons
counts_total-tally_reasons [] counts = omega arith
counts_total-tally_reasons (s ∷ ss) counts = ground (
  arith,
  counts_total-tally_reasons ss counts,
  counts_total-tally_reasons ss (count_reason s.exclusion_reason counts),
  counts_total-count_reason s.exclusion_reason counts,
)

-- The basis rebuilt over any sessions accounts for each of them, and its rows are labelled.
pub rebuild_basis-IsAccounted :
    (sessions : List SessionTimeline)
    → IsAccounted (rebuild_basis sessions) × (labels_present (rebuild_basis sessions) ≡ true)
unfolding rebuild_basis labels_present
rebuild_basis-IsAccounted sessions = (
  record {
    accounted = omega (
      arith,
      set_aside_total-breakdown (tally_reasons sessions []),
      counts_total-tally_reasons sessions [],
      length-filter-not is_kept sessions,
    );
    unchecked_within = length-filter-le is_unchecked (filter is_kept sessions);
  },
  all-breakdown (tally_reasons sessions []),
)

-- What the loop over the groups keeps: a group is either kept or counted under a reason.
record Balanced (n : ℕ) (counts : PeopleCounts) : Type 0 where
  adds_up : counts.kept + counts_total counts.by_reason ≡ n
  unchecked_few : counts.kept_unchecked ≤ counts.kept
  returned_few : counts.returned ≤ counts.kept

count_group-Balanced :
    (n : ℕ) (group : PersonGroup) (first : Option SessionTimeline) (counts : PeopleCounts)
    → Balanced n counts
    → Balanced (suc n) (count_group group first counts)
count_group-Balanced n group none counts h =
    ground (arith, h.adds_up, h.unchecked_few, h.returned_few)
count_group-Balanced n group (some first) counts h = ground (
  arith,
  h.adds_up,
  h.unchecked_few,
  h.returned_few,
  counts_total-count_reason first.exclusion_reason counts.by_reason,
)

count_people-Balanced :
    (n : ℕ) (groups : List (ℕ × PersonGroup)) (counts : PeopleCounts)
    → Balanced n counts
    → Balanced (n + length groups) (count_people groups counts)
unfolding count_people
count_people-Balanced n [] counts h = ground (arith, h.adds_up, h.unchecked_few, h.returned_few)
count_people-Balanced n ((_, group) ∷ groups) counts h =
    let rest =
      count_people-Balanced (suc n) groups (count_group group (head? group.set_aside) counts)
        (count_group-Balanced n group (head? group.set_aside) counts h) in
    record {
      adds_up = omega (arith, rest.adds_up);
      unchecked_few = rest.unchecked_few;
      returned_few = rest.returned_few;
    }

no_people-Balanced : Balanced 0 no_people
no_people-Balanced = record {
  adds_up = refl;
  unchecked_few = omega arith;
  returned_few = omega arith;
}

pub record IsPeopleBasis (b : CountBasis) (tally : PeopleTally) : Type 0 where
  pub people_accounted : IsAccounted b
  pub people_labelled : labels_present b ≡ true
  pub returned_within : tally.returned ≤ b.kept

tally_of-IsPeopleBasis :
    (grouped : Grouped) (counts : PeopleCounts) {b : CountBasis}
    → Balanced (0 + length grouped.groups) counts
    → (tally_of grouped counts).people_basis ≡ some b
    → IsPeopleBasis b (tally_of grouped counts)
unfolding labels_present
tally_of-IsPeopleBasis grouped counts {b} h e = ground (
  arith,
  h.adds_up,
  h.unchecked_few,
  h.returned_few,
  set_aside_total-breakdown counts.by_reason,
  all-breakdown counts.by_reason,
)

-- A basis of people accounts for each person once, whether kept or set aside, its rows are labelled, and
-- those who came back are among the people kept.
pub tally_people-IsPeopleBasis :
    (eligible : List EligibleSession) {b : CountBasis}
    → (tally_people eligible).people_basis ≡ some b
    → IsPeopleBasis b (tally_people eligible)
unfolding tally_people
tally_people-IsPeopleBasis eligible {b} e =
    let grouped = group_people eligible (record { groups = []; unidentified = 0 }) in
    tally_of-IsPeopleBasis grouped (count_people grouped.groups no_people) {b = b}
      (count_people-Balanced 0 grouped.groups no_people no_people-Balanced) e
