-- ===== src/Signatures/Service/Delivered.antt =====
-- packages/db/src/services/signature-ledger.service.ts: markSignatureDelivered, and what is consulted after it.
use growthmind.Prelude.{ℕ, ◌≡◌, refl, sym, ◌∙◌, ap, Text, true, some, arith}
use growthmind.Signatures.Ledger.{
  LedgerRow, Ledger, find_by_signature, updated, coalesce, mark_delivered,
}
use growthmind.Signatures.Service.{
  forward_of, resolve_forward, is_instant, consult_signature, mark_signature_delivered,
}
use growthmind.Signatures.Service.Laws.{
  is_suppressed, suppressed_by_row, updated-find, coalesce-some, or_right,
}
use growthmind.Signatures.Service.Walk.{
  Leads, IsEnd, resolve-IsEnd, Leads-same_edges, consulted_far,
}

-- Once the signature of a finding was marked as delivered, nothing is delivered again that leads by any
-- number of replacements to the signature at the end of its own, if that one is at most eight
-- replacements away and the ledger has a row for it.
pub consult_signature-marked :
    (project_id signature last other : Text) (near far now : ℕ) (ledger : Ledger) {row : LedgerRow}
    {marked : Ledger}
    → IsEnd ledger signature last near
    → Leads ledger far other last
    → find_by_signature ledger project_id last ≡ some row
    → mark_signature_delivered project_id signature now ledger ≡ some marked
    → is_suppressed (consult_signature marked project_id other) ≡ true
unfolding mark_signature_delivered mark_delivered
consult_signature-marked project_id signature last other near far now ledger {row} {marked} end
      leads h e =
    let later = resolve_forward ledger signature in
    let resolves : later ≡ last =
      ap (forward_of signature) ((resolve-IsEnd ledger signature last near).1 end) in
    let change =
      (λ (r : LedgerRow). record r { delivered_at = coalesce r.delivered_at (some now) }) in
    let result = updated ledger project_id last change (some row) in
    let made : updated ledger project_id last change (find_by_signature ledger project_id last)
        ≡ marked =
      let at_last = rw resolves at e in ground arith in
    let same : result ≡ marked = ap (updated ledger project_id last change) (sym h) ∙ made in
    let (near_leads, ends, within) = end in
    rw (← same) (
      consulted_far result project_id other last far
        (Leads-same_edges ledger result far other last refl leads) ends
        (suppressed_by_row result project_id last (change row)
          (updated-find ledger project_id last change row)
          (or_right (is_instant row.dismissed_at)
            (is_instant (coalesce row.delivered_at (some now)))
            (coalesce-some row.delivered_at now))))
