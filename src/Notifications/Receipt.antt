-- ===== src/Notifications/Receipt.antt =====
-- packages/core/src/notifications/receipt.ts: which of a notification's receipts speaks for it.
use growthmind.Prelude.{
  ℕ, ◌≡◌, refl, sym, ap, subst, Text, Bool, true, false, ◌&&◌, ◌||◌, Option, none, some, List, [],
  ◌∷◌, All, ltb, ◌==◌, if◌then◌else◌, arith,
}

pub data NotificationChannel : Type 0 where
  slack web_push : NotificationChannel

pub data NotificationSendStatus : Type 0 where
  pending sent failed quiet : NotificationSendStatus

pub record SlackReceiptFacts : Type 0 where
  pub channel : NotificationChannel
  pub target : Text
  pub status : NotificationSendStatus
  pub quiet_reason : Option Text
  pub failure_reason : Option Text
  pub message_ref : Option Text
  pub channel_label : Option Text
  pub sent_at : Option ℕ
  pub created_at : ℕ

-- `PRECEDENCE[status]`, of a status that is settled.
abbrev pub rank_of_status : NotificationSendStatus → Option ℕ
rank_of_status sent = some 3
rank_of_status failed = some 2
rank_of_status quiet = some 1
rank_of_status pending = none

abbrev pub supersedes : SlackReceiptFacts → ℕ → Option SlackReceiptFacts → ℕ → Bool
supersedes send rank none best_rank = true
supersedes send rank (some best) best_rank =
    ltb best_rank rank || (rank == best_rank && ltb best.created_at send.created_at)

abbrev next_best :
    SlackReceiptFacts → Option ℕ → Option SlackReceiptFacts → ℕ → Option SlackReceiptFacts × ℕ
next_best send none best best_rank = (best, best_rank)
next_best send (some rank) best best_rank =
    if supersedes send rank best best_rank then (some send, rank) else (best, best_rank)

-- The loop over the receipts.
unfoldable pub receipt_loop :
    List SlackReceiptFacts → Option SlackReceiptFacts → ℕ → Option SlackReceiptFacts
receipt_loop [] best best_rank = best
receipt_loop (send ∷ sends) best best_rank =
    let next = next_best send (rank_of_status send.status) best best_rank in
    receipt_loop sends next.0 next.1

unfoldable pub authoritative_slack_receipt : List SlackReceiptFacts → Option SlackReceiptFacts
unfolding receipt_loop
authoritative_slack_receipt sends = receipt_loop sends none 0

-- A receipt that should have been taken in place of `best`: one that is settled, where there is no
-- other, or it has the higher precedence, or the same and is newer.
abbrev rank_or_zero : Option ℕ → ℕ
rank_or_zero none = 0
rank_or_zero (some n) = n

abbrev settled_rank : SlackReceiptFacts → ℕ
settled_rank s = rank_or_zero (rank_of_status s.status)

abbrev pub outranks : SlackReceiptFacts → Option SlackReceiptFacts → Bool
outranks s none = ltb 0 (settled_rank s)
outranks s (some best) =
    ltb 0 (settled_rank s)
    && (ltb (settled_rank best) (settled_rank s)
        || (settled_rank s == settled_rank best && ltb best.created_at s.created_at))

abbrev best_rank_of : Option SlackReceiptFacts → ℕ
best_rank_of none = 0
best_rank_of (some best) = settled_rank best

next_best-outranks :
    (send s : SlackReceiptFacts) (best : Option SlackReceiptFacts) (status : NotificationSendStatus)
    → send.status ≡ status
    → outranks s best ≡ false
    → outranks s (next_best send (rank_of_status status) best (best_rank_of best)).0 ≡ false
next_best-outranks send s none status e h = ground arith
next_best-outranks send s (some best) status e h = ground arith

next_best_self :
    (send : SlackReceiptFacts) (best : Option SlackReceiptFacts) (status : NotificationSendStatus)
    → send.status ≡ status
    → outranks send (next_best send (rank_of_status status) best (best_rank_of best)).0 ≡ false
next_best_self send none status e = ground arith
next_best_self send (some best) status e = ground arith

next_best-rank :
    (send : SlackReceiptFacts) (best : Option SlackReceiptFacts) (status : NotificationSendStatus)
    → send.status ≡ status
    → (next_best send (rank_of_status status) best (best_rank_of best)).1
      ≡ best_rank_of (next_best send (rank_of_status status) best (best_rank_of best)).0
next_best-rank send none status e = ground arith
next_best-rank send (some best) status e = ground arith

receipt_loop-outranks :
    (sends : List SlackReceiptFacts) (best : Option SlackReceiptFacts) (s : SlackReceiptFacts)
    → outranks s best ≡ false
    → outranks s (receipt_loop sends best (best_rank_of best)) ≡ false
unfolding receipt_loop
receipt_loop-outranks [] best s h = h
receipt_loop-outranks (send ∷ sends) best s h = rw (next_best-rank send best send.status refl) (
    receipt_loop-outranks sends
      (next_best send (rank_of_status send.status) best (best_rank_of best)).0 s
      (next_best-outranks send s best send.status refl h))

receipt_loop-step :
    (send : SlackReceiptFacts) (sends : List SlackReceiptFacts) (best : Option SlackReceiptFacts)
    → let next = (next_best send (rank_of_status send.status) best (best_rank_of best)).0 in
      receipt_loop (send ∷ sends) best (best_rank_of best)
      ≡ receipt_loop sends next (best_rank_of next)
unfolding receipt_loop
receipt_loop-step send sends best =
    ap (receipt_loop sends _) (next_best-rank send best send.status refl)

receipt_loop-best :
    (sends : List SlackReceiptFacts) (best : Option SlackReceiptFacts)
    → All (λ s. outranks s (receipt_loop sends best (best_rank_of best)) ≡ false) sends
receipt_loop-best [] best = tt
receipt_loop-best (send ∷ sends) best =
    let next = (next_best send (rank_of_status send.status) best (best_rank_of best)).0 in
    subst (λ r. All (λ s. outranks s r ≡ false) (send ∷ sends))
      (sym (receipt_loop-step send sends best))
      (
        receipt_loop-outranks sends next send (next_best_self send best send.status refl),
        receipt_loop-best sends next,
      )

-- No settled receipt outranks the one that speaks for a notification: none has a higher precedence, or
-- the same and is newer; and where no receipt speaks for it, none is settled.
pub authoritative_slack_receipt-outranks :
    (sends : List SlackReceiptFacts)
    → All (λ s. outranks s (authoritative_slack_receipt sends) ≡ false) sends
unfolding authoritative_slack_receipt
authoritative_slack_receipt-outranks sends = receipt_loop-best sends none
