-- ===== src/Delivery/Schedule/Laws.antt =====
-- packages/core/src/delivery/schedule.ts: the decisions of a delivery lane.
use growthmind.Prelude.{
  ℕ, ◌≡◌, true, false, List, [], ◌∷◌, filter, head?, to_sorted, All, All-filter, All-of_to_sorted,
  to_sorted-IsSorted, to_sorted-perm, IsSorted, is_after, arith, some, Sign, flip_sign,
  head?-eq-some, mem-of_filter, All-to_sorted,
}
use mathlib.Core.List.{Mem, mem-cons_self}
use mathlib.Core.List.Perm
use growthmind.Delivery.Schedule.{
  DeliveryCandidate, DeliveryLaneState, deliver, is_deliverable, budget_remains,
  compare_delivery_candidates, decide_delivery,
}
use growthmind.Delivery.Schedule.Order.{compare_delivery_candidates-IsOrder}

abbrev pub eligible : DeliveryLaneState → List DeliveryCandidate
eligible lane = filter is_deliverable lane.candidates

-- A delivery of `c` is right for the lane.
pub record IsRightDelivery (lane : DeliveryLaneState) (c : DeliveryCandidate) : Type 0 where
  pub none_open : lane.open_finding_ids ≡ []
  pub within_budget : budget_remains lane.delivered_this_week ≡ true
  pub candidate_of_lane : Mem c lane.candidates
  pub strong_enough : is_deliverable c ≡ true
  pub first_of_all : All (λ d. is_after (compare_delivery_candidates c d) ≡ false) (eligible lane)

sorted_head :
    (cs : List DeliveryCandidate) (c : DeliveryCandidate) (rest : List DeliveryCandidate)
    → to_sorted compare_delivery_candidates cs ≡ c ∷ rest
    → Mem c cs × All (λ d. is_after (compare_delivery_candidates c d) ≡ false) cs
sorted_head cs c rest e = (
  (Perm.mem_iff (to_sorted-perm compare_delivery_candidates cs)).0 (rw e mem-cons_self),
  All-of_to_sorted compare_delivery_candidates _ cs (rw e (first_not_after, sorted.0)),
)
  where
    sorted : IsSorted compare_delivery_candidates (c ∷ rest)
    sorted =
        rw e at
          (to_sorted-IsSorted compare_delivery_candidates compare_delivery_candidates-IsOrder cs)

    first_not_after : is_after (compare_delivery_candidates c c) ≡ false
    first_not_after =
        let f = compare_delivery_candidates-IsOrder.flips c c in
        self (compare_delivery_candidates c c) f
      where
        self : (s : Sign) → s ≡ flip_sign s → is_after s ≡ false
        self s h = ground arith

delivered_inversion :
    (lane : DeliveryLaneState) (now : ℕ) {c : DeliveryCandidate} {at : ℕ}
    → decide_delivery lane now ≡ deliver c at
    → (lane.open_finding_ids ≡ [])
      × (budget_remains lane.delivered_this_week ≡ true)
      × (head? (to_sorted compare_delivery_candidates (eligible lane)) ≡ some c)
unfolding decide_delivery
delivered_inversion lane now h = ground arith

-- A finding is delivered only if none is open, the week's budget is not spent, and it is a
-- candidate of the lane whose evidence reached its threshold; no such candidate precedes it in the
-- queue's order.
pub decide_delivery-IsRightDelivery :
    (lane : DeliveryLaneState) (now : ℕ) {c : DeliveryCandidate} {at : ℕ}
    → decide_delivery lane now ≡ deliver c at
    → IsRightDelivery lane c
decide_delivery-IsRightDelivery lane now {c} h =
    let (none_open, budget, chosen) = delivered_inversion lane now h in
    let (rest, sorted) = head?-eq-some _ chosen in
    let (member, first) = sorted_head (eligible lane) c rest sorted in
    record {
      none_open = none_open;
      within_budget = budget;
      candidate_of_lane = mem-of_filter is_deliverable lane.candidates member;
      strong_enough =
          (rw sorted at (
            All-to_sorted compare_delivery_candidates (λ d. is_deliverable d ≡ true) (eligible lane)
              (All-filter is_deliverable lane.candidates))).0;
      first_of_all = first;
    }
