-- ===== src/Examples/DeliveryRuns.antt =====
-- Runs of the delivery lane.
use growthmind.Prelude.{ℕ, ◌≡◌, refl, Text, text, true, false, is_empty, List, [], ◌∷◌, same}
use growthmind.Evidence.Predicates.{ConfidenceBasis, threshold_met, at_threshold, below_threshold}
use growthmind.Growth.Worth.{unknown_worth}
use growthmind.Delivery.Schedule.{
  DeliveryCandidate, DeliveryLaneState, deliver, whole, compare_delivery_candidates,
  decide_delivery,
}
use growthmind.Delivery.Schedule.Laws.{IsRightDelivery, decide_delivery-IsRightDelivery}

abbrev candidate : Text → ConfidenceBasis → ℕ → DeliveryCandidate
candidate id basis n = record {
  finding_id = id;
  confidence_basis = basis;
  sample_size = record { numerator = n; denominator = 30 };
  worth = unknown_worth (text "/checkout");
}

abbrev waiting_lane : DeliveryLaneState
waiting_lane = record {
  open_finding_ids = [];
  delivered_this_week = whole 2;
  candidates =
      candidate (text "a") at_threshold 9
      ∷ candidate (text "b") threshold_met 5
      ∷ candidate (text "c") below_threshold 20
      ∷ candidate (text "d") threshold_met 7
      ∷ [];
}

chosen_d : decide_delivery waiting_lane 1_000 ≡ deliver (candidate (text "d") threshold_met 7) 1_000
unfolding decide_delivery growthmind.Prelude.to_sorted compare_delivery_candidates
chosen_d = refl

a_itself :
    compare_delivery_candidates
      (candidate (text "a") at_threshold 9)
      (candidate (text "a") at_threshold 9)
    ≡ same
unfolding compare_delivery_candidates growthmind.Prelude.compare_texts
a_itself = refl

decide_delivery-IsRightDelivery_example :
    IsRightDelivery waiting_lane (candidate (text "d") threshold_met 7)
decide_delivery-IsRightDelivery_example =
    decide_delivery-IsRightDelivery waiting_lane 1_000 chosen_d
