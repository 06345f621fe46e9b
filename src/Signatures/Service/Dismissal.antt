-- ===== src/Signatures/Service/Dismissal.antt =====
-- packages/db/src/services/signature-ledger.service.ts: a dismissal that is recorded and then consulted.
use growthmind.Prelude.{
  is_empty-of_length, head?-filled, ℕ, ◌≡◌, refl, sym, ◌∙◌, ap, Text, text_eq, text_eq_refl, Bool,
  true, false, Option, none, some, List, [], ◌∷◌, filter, is_empty, map_get, map_values, to_sorted,
  length-to_sorted, arith, Bool-cases, inl, inr,
}
use growthmind.Findings.Suppression.{resolved, suppression_decision, suppression_policy_version}
use growthmind.Signatures.Ledger.{
  LedgerRow, DismissalRecord, Ledger, find_by_signature, updated, coalesce, mark_dismissed,
  record_dismissal_row, find_latest_for_signature, is_dismissal_of, compare_latest, claim_in,
}
use growthmind.Signatures.Service.{
  forward_of, resolve_forward, is_instant, row_state, consult_signature, RecordDismissalInput,
  record_dismissal, dismissal_row,
}
use growthmind.Signatures.Service.Walk.{
  Leads, IsEnd, resolve-IsEnd, Leads-same_edges, consulted_far,
}
use growthmind.Signatures.Service.Laws.{
  is_suppressed, suppressed_by_row, suppressed_by_latest, updated-find, updated-edges,
  coalesce-some, or_left, map_get-set_text,
}

filled-values :
    (k : Text) (m : List (Text × DismissalRecord)) (p : DismissalRecord → Bool)
    {w : DismissalRecord}
    → map_get text_eq k m ≡ some w
    → p w ≡ true
    → is_empty (filter p (map_values text_eq m)) ≡ false
unfolding map_get
filled-values k [] p h e = cc
filled-values k ((j, v) ∷ m) p {w} h e = elim (Bool-cases (p v)) [
  | inl here ↦ rw here refl
  | inr other ↦ rw other (elim (Bool-cases (text_eq j k)) [
    | inl found ↦ let same_value : v ≡ w = ground arith in cc (sym other ∙ rw (← same_value) at e)
    | inr missed ↦ filled-values k m p (rw missed at h) e
  ])
]

find_latest-of_dismissal :
    (ledger : Ledger) (project_id signature finding_id : Text) (w : DismissalRecord)
    → map_get text_eq finding_id ledger.dismissals ≡ some w
    → is_dismissal_of project_id signature w ≡ true
    → (d : DismissalRecord) × (find_latest_for_signature ledger project_id signature ≡ some d)
unfolding find_latest_for_signature
find_latest-of_dismissal ledger project_id signature finding_id w h e =
    let found =
      filter (is_dismissal_of project_id signature) (map_values text_eq ledger.dismissals) in
    head?-filled (to_sorted compare_latest found) (
      is_empty-of_length (to_sorted compare_latest found) found
        (length-to_sorted compare_latest found)
      ∙ filled-values finding_id ledger.dismissals (is_dismissal_of project_id signature) h e)

-- An earlier dismissal of the same finding is one of this signature.
abbrev pub AgreesWith : Text → Text → Option DismissalRecord → Type 0
AgreesWith project_id signature none = Unit
AgreesWith project_id signature (some earlier) = is_dismissal_of project_id signature earlier ≡ true

claimed-AgreesWith :
    (finding_id project_id signature : Text) (row : DismissalRecord)
    (table : List (Text × DismissalRecord)) (o : Option DismissalRecord)
    → map_get text_eq finding_id table ≡ o
    → is_dismissal_of project_id signature row ≡ true
    → AgreesWith project_id signature o
    → (w : DismissalRecord) × (map_get text_eq finding_id (claim_in finding_id row table o)
        ≡ some w)
      × (is_dismissal_of project_id signature w ≡ true)
claimed-AgreesWith fid p s row table none e h k = (row, map_get-set_text fid row table, h)
claimed-AgreesWith fid p s row table (some w) e h k = (w, e, k)

-- A dismissal of a signature, once it is recorded.
dismissed_there :
    (input : RecordDismissalInput) (now : ℕ) (ledger : Ledger) (later : Text) (o : Option LedgerRow)
    → find_by_signature ledger input.project_id later ≡ o
    → AgreesWith input.project_id later (map_get text_eq input.finding_id ledger.dismissals)
    → is_suppressed (
        suppression_decision
          (resolved (
            row_state
              (mark_dismissed input.project_id later now
                (record_dismissal_row input.finding_id (dismissal_row input later now) ledger))
              input.project_id
              later))
          suppression_policy_version)
      ≡ true
unfolding mark_dismissed record_dismissal_row
dismissed_there input now ledger later (some row) e k =
    let claimed = record_dismissal_row input.finding_id (dismissal_row input later now) ledger in
    let change =
      (λ (r : LedgerRow). record r { dismissed_at = coalesce r.dismissed_at (some now) }) in
    rw e (
      suppressed_by_row (updated claimed input.project_id later change (some row)) input.project_id
        later (change row) (updated-find claimed input.project_id later change row)
        (or_left (is_instant (coalesce row.dismissed_at (some now))) (is_instant row.delivered_at)
          (coalesce-some row.dismissed_at now)))
dismissed_there input now ledger later none e k =
    let claimed = record_dismissal_row input.finding_id (dismissal_row input later now) ledger in
    let own : is_dismissal_of input.project_id later (dismissal_row input later now) ≡ true =
      rw (text_eq_refl input.project_id, text_eq_refl later) refl in
    let (w, got, agrees) =
      claimed-AgreesWith input.finding_id input.project_id later (dismissal_row input later now)
        ledger.dismissals (map_get text_eq input.finding_id ledger.dismissals) refl own k in
    let (d, found) =
      find_latest-of_dismissal claimed input.project_id later input.finding_id w got agrees in
    rw e (suppressed_by_latest claimed input.project_id later d e found)

edges_kept :
    (input : RecordDismissalInput) (now : ℕ) (ledger : Ledger) (later : Text)
    → (mark_dismissed input.project_id later now
        (record_dismissal_row input.finding_id (dismissal_row input later now) ledger)).edges
      ≡ ledger.edges
unfolding mark_dismissed record_dismissal_row
edges_kept input now ledger later =
    updated-edges (record_dismissal_row input.finding_id (dismissal_row input later now) ledger)
      input.project_id later
      (λ (r : LedgerRow). record r { dismissed_at = coalesce r.dismissed_at (some now) })
      (find_by_signature ledger input.project_id later)

-- Once the signature of a finding was dismissed, nothing is delivered again that leads by any number of
-- replacements to the signature at the end of its own, whether the ledger has a row for that one or not,
-- if that one is at most eight replacements away and any earlier dismissal of the same finding was of it
-- too.
pub consult_signature-record_dismissal :
    (input : RecordDismissalInput) (now : ℕ) (ledger : Ledger) {recorded : Ledger}
    (last other : Text) (near far : ℕ)
    → IsEnd ledger input.signature last near
    → Leads ledger far other last
    → AgreesWith input.project_id last (map_get text_eq input.finding_id ledger.dismissals)
    → record_dismissal input now ledger ≡ some recorded
    → is_suppressed (consult_signature recorded input.project_id other) ≡ true
unfolding record_dismissal
consult_signature-record_dismissal input now ledger {recorded} last other near far end leads h e =
    let later = resolve_forward ledger input.signature in
    let resolves : later ≡ last =
      ap (forward_of input.signature) ((resolve-IsEnd ledger input.signature last near).1 end) in
    let result =
      mark_dismissed input.project_id last now
        (record_dismissal_row input.finding_id (dismissal_row input last now) ledger) in
    let same : result ≡ recorded = let made = rw resolves at e in ground arith in
    let kept = edges_kept input now ledger last in
    let (near_leads, ends, within) = end in
    rw (← same) (
      consulted_far result input.project_id other last far
        (Leads-same_edges ledger result far other last (sym kept) leads)
        (ap (map_get text_eq last) kept ∙ ends)
        (dismissed_there input now ledger last (find_by_signature ledger input.project_id last) refl
          h))
