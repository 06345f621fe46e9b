-- ===== src/Signatures/Service/Ancestry.antt =====
-- packages/db/src/services/signature-ledger.service.ts, recordAncestry: a signature that is replaced by
-- another one.
use growthmind.Prelude.{
  text_left, text_right, ℕ, zero, suc, ◌≡◌, ◌≢◌, refl, ◌∙◌, Text, text_eq, text_eq_iff,
  text_eq_refl, true, false, Option, none, some, map_get, map_set, map_get-map_set, if◌then◌else◌,
  arith, Bool-cases, inl, inr, ◌⊎◌,
}
use growthmind.Findings.Suppression.{resolved, suppression_decision, suppression_policy_version}
use growthmind.Signatures.Ledger.{
  with_row, LedgerRow, Ledger, find_by_signature, coalesce, carry_forward, carried_row,
}
use growthmind.Signatures.Service.{
  is_project, is_instant, row_state, consult_signature, RecordAncestryInput, record_ancestry,
  edge_of,
}
use growthmind.Signatures.Service.Walk.{Leads, IsLast, Leads-trans, consulted_far}
use growthmind.Signatures.Service.Laws.{is_suppressed, suppressed_by_row, or_left, map_get-row}

text_differ : (s t : Text) → s ≢ t → text_eq s t ≡ false
text_differ s t h = elim (Bool-cases (text_eq s t)) [
  | inl e ↦ absurd (h ((text_eq_iff s t).0 e))
  | inr e ↦ e
]

coalesce_right : (a b : Option ℕ) → is_instant b ≡ true → is_instant (coalesce a b) ≡ true
coalesce_right none b h = h
coalesce_right (some at) b h = refl

carried_dismissed :
    (old : LedgerRow) (o : Option LedgerRow)
    → is_instant old.dismissed_at ≡ true
    → is_instant (carried_row old o).dismissed_at ≡ true
carried_dismissed old none h = h
carried_dismissed old (some row) h = coalesce_right row.dismissed_at old.dismissed_at h

-- The ledger once an edge was claimed and the old row carried along.
abbrev carried : RecordAncestryInput → Ledger → LedgerRow → Ledger
carried input ledger row =
    with_row
      (record ledger { edges = map_set text_eq input.old_signature (edge_of input) ledger.edges })
      input.project_id input.new_signature
      (carried_row row (find_by_signature ledger input.project_id input.new_signature))

recorded_is_carried :
    (input : RecordAncestryInput) (ledger : Ledger) {row : LedgerRow} {recorded : Ledger}
    → find_by_signature ledger input.project_id input.old_signature ≡ some row
    → map_get text_eq input.old_signature ledger.edges ≡ none
    → record_ancestry input ledger ≡ some recorded
    → carried input ledger row ≡ recorded
unfolding record_ancestry carry_forward
recorded_is_carried input ledger {row} {recorded} found fresh e =
    elim (Bool-cases (is_project ledger input.project_id)) [
      | inl ours ↦ let same = rw (ours, fresh, found) at e in ground arith
      | inr others ↦ cc (rw others at e)
    ]

carried_edges :
    (input : RecordAncestryInput) (ledger : Ledger) (k : Text)
    → map_get text_eq k (map_set text_eq input.old_signature (edge_of input) ledger.edges) ≡ (
        if text_eq input.old_signature k
        then some (edge_of input)
        else map_get text_eq k ledger.edges)
carried_edges input ledger k =
    map_get-map_set text_eq text_left text_right input.old_signature k (edge_of input) ledger.edges

there :
    (input : RecordAncestryInput) (ledger : Ledger) (row : LedgerRow)
    → is_instant row.dismissed_at ≡ true
    → is_suppressed (
        suppression_decision
          (resolved (row_state (carried input ledger row) input.project_id input.new_signature))
          suppression_policy_version)
      ≡ true
there input ledger row gone =
    let kept = carried_row row (find_by_signature ledger input.project_id input.new_signature) in
    suppressed_by_row (carried input ledger row) input.project_id input.new_signature kept
      (map_get-row (input.project_id, input.new_signature) kept ledger.rows)
      (or_left (is_instant kept.dismissed_at) (is_instant kept.delivered_at) (
        carried_dismissed row (find_by_signature ledger input.project_id input.new_signature) gone))

-- The edges that led somewhere still do, once one more signature was replaced.
carried-Leads :
    (input : RecordAncestryInput) (ledger : Ledger) (row : LedgerRow) (n : ℕ) (from to : Text)
    → map_get text_eq input.old_signature ledger.edges ≡ none
    → Leads ledger n from to
    → Leads (carried input ledger row) n from to
carried-Leads input ledger row zero from to fresh h = h
carried-Leads input ledger row (suc n) from to fresh (edge, found, h) =
    let rest = carried-Leads input ledger row n edge.new_signature to fresh h in
    elim (Bool-cases (text_eq input.old_signature from)) [
      | inl e ↦
          let same : input.old_signature ≡ from = (text_eq_iff input.old_signature from).0 e in
          cc (found, fresh, same)
      | inr e ↦ (edge, rw e at (carried_edges input ledger from) ∙ found, rest)
    ]

-- The dismissal of a signature's row goes along when the signature is replaced for the first time: nothing
-- that led to the old signature or to the new one by any number of replacements is delivered again, if
-- the new signature is another one that was not itself replaced.
pub consult_signature-record_ancestry :
    (input : RecordAncestryInput) (ledger : Ledger) {row : LedgerRow} {recorded : Ledger}
    (other : Text) (n : ℕ)
    → find_by_signature ledger input.project_id input.old_signature ≡ some row
    → is_instant row.dismissed_at ≡ true
    → IsLast ledger input.old_signature
    → IsLast ledger input.new_signature
    → input.old_signature ≢ input.new_signature
    → record_ancestry input ledger ≡ some recorded
    → Leads ledger n other input.old_signature ⊎ Leads ledger n other input.new_signature
    → is_suppressed (consult_signature recorded input.project_id other) ≡ true
consult_signature-record_ancestry input ledger {row} {recorded} other n found gone fresh last differ
      e led =
    let result = carried input ledger row in
    let same = recorded_is_carried input ledger found fresh e in
    let old_edge =
      rw (text_eq_refl input.old_signature) at (carried_edges input ledger input.old_signature) in
    let ends =
      rw (text_differ input.old_signature input.new_signature differ) at
        (carried_edges input ledger input.new_signature)
      ∙ last in
    let suppressed = there input ledger row gone in
    rw (← same) (elim led [
      | inl old ↦
          let (k, leads) =
            Leads-trans result n 1 other input.old_signature input.new_signature
              (carried-Leads input ledger row n other input.old_signature fresh old)
              (edge_of input, old_edge, refl) in
          consulted_far result input.project_id other input.new_signature k leads ends suppressed
      | inr new ↦
          consulted_far result input.project_id other input.new_signature n
            (carried-Leads input ledger row n other input.new_signature fresh new) ends suppressed
    ])
