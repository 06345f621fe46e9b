-- ===== src/Delivery/Schedule/Order.antt =====
-- packages/core/src/delivery/schedule.ts: the comparator of the delivery queue.
use growthmind.Prelude.{
  ◌≡◌, compare_texts-same, same, IsOrder, IsRanking, IsRanking-then, IsRanking-numbers,
  IsRanking-falling, IsRanking-texts, order-of_ranking, arith,
}
use growthmind.Growth.Worth.{expected_value_of}
use growthmind.Delivery.Schedule.{DeliveryCandidate, compare_delivery_candidates, confidence_rank}

IsRanking-candidates : IsRanking compare_delivery_candidates
unfolding compare_delivery_candidates
IsRanking-candidates =
    IsRanking-then
      (IsRanking-numbers (λ (c : DeliveryCandidate). confidence_rank c.confidence_basis))
      (IsRanking-then
        (IsRanking-falling
          (λ (c : DeliveryCandidate). (expected_value_of c.sample_size.numerator c.worth).score))
        (IsRanking-then (IsRanking-falling (λ (c : DeliveryCandidate). c.sample_size.denominator)) (
          IsRanking-then (IsRanking-falling (λ (c : DeliveryCandidate). c.sample_size.numerator))
            (IsRanking-texts (λ (c : DeliveryCandidate). c.finding_id)))))

-- The delivery comparator orders the candidates: swapping its arguments flips its sign, and it is
-- transitive.
pub compare_delivery_candidates-IsOrder : IsOrder compare_delivery_candidates
compare_delivery_candidates-IsOrder = order-of_ranking IsRanking-candidates

-- Two candidates tie only if they are one finding.
pub compare_delivery_candidates-same :
    (a b : DeliveryCandidate) → compare_delivery_candidates a b ≡ same → a.finding_id ≡ b.finding_id
unfolding compare_delivery_candidates
compare_delivery_candidates-same a b h =
    ground (arith, compare_texts-same a.finding_id b.finding_id)
