-- ===== src/Detect/Order.antt =====
-- packages/core/src/detect/order.ts: a session's events by instant, then by id.
use growthmind.Prelude.{
  List, Sign, compare_numbers, ◌then_by◌, compare_texts, to_sorted, IsSorted, IsOrder,
  to_sorted-IsSorted, to_sorted-perm, IsRanking-then, IsRanking-numbers, IsRanking-texts,
  order-of_ranking,
}
use mathlib.Core.List.{Perm}
use growthmind.Detect.Types.{TimelineEvent}

-- `byInstant !== 0` returns the difference of the instants, of which `toSorted` reads the sign.
unfoldable pub compare_events : TimelineEvent → TimelineEvent → Sign
compare_events left right =
    compare_numbers left.occurred_at right.occurred_at
    then_by compare_texts left.source_event_id right.source_event_id

unfoldable pub order_timeline : List TimelineEvent → List TimelineEvent
unfolding to_sorted compare_events
order_timeline events = to_sorted compare_events events

compare_events-IsOrder : IsOrder compare_events
unfolding compare_events
compare_events-IsOrder = order-of_ranking (
    IsRanking-then (IsRanking-numbers (λ (e : TimelineEvent). e.occurred_at))
      (IsRanking-texts (λ (e : TimelineEvent). e.source_event_id)))

-- A timeline is read in the order of its instants, ties in the order of the ids, and holds exactly
-- the events of the session.
pub order_timeline_lem :
    (events : List TimelineEvent)
    → IsSorted compare_events (order_timeline events) × Perm (order_timeline events) events
unfolding order_timeline
order_timeline_lem events = (
  to_sorted-IsSorted compare_events compare_events-IsOrder events,
  to_sorted-perm compare_events events,
)
