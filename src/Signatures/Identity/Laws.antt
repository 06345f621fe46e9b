-- ===== src/Signatures/Identity/Laws.antt =====
-- packages/db/src/services/signature-ledger.service.ts: a candidate that is recorded, delivered and
-- consulted.
use growthmind.Prelude.{
  ℕ, ◌≡◌, refl, ap, sym, ◌∙◌, Text, true, some, bind-eq-some, arith, Bool-cases, inl, inr,
}
use growthmind.Platform.{Platform}
use growthmind.Findings.Candidate.{CandidateFinding}
use growthmind.Findings.Suppression.{suppression_decision}
use growthmind.Signatures.Ledger.{Ledger, find_by_signature, upsert_seen, UpsertSeenInput, seen_row}
use growthmind.Signatures.Service.{
  resolve_forward, mark_signature_delivered, consult_signature, is_project,
}
use growthmind.Signatures.Service.Laws.{
  is_suppressed, map_get-row, consult_signature-mark_signature_delivered,
}
use growthmind.Signatures.Identity.{
  has_serialiser, to_compute_input, seen_input, compute_finding_signature, record_signature,
  consult_candidate,
}

upsert_seen-find :
    (input : UpsertSeenInput) (ledger : Ledger)
    → find_by_signature (upsert_seen input ledger) input.project_id input.signature
      ≡ some (seen_row input (find_by_signature ledger input.project_id input.signature))
unfolding upsert_seen
upsert_seen-find input ledger =
    map_get-row (input.project_id, input.signature)
      (seen_row input (find_by_signature ledger input.project_id input.signature)) ledger.rows

module _ (W : Platform) (sha256_hex : Text → Text) where
  -- What `record_signature` returned.
  recorded_parts :
      (project_id : Text) (candidate : CandidateFinding) (now : ℕ) (ledger : Ledger)
      {signature : Text} {recorded : Ledger}
      → record_signature W sha256_hex project_id candidate now ledger ≡ some (signature, recorded)
      → (compute_finding_signature W sha256_hex (to_compute_input project_id candidate)
          ≡ some signature)
        × (upsert_seen (seen_input project_id signature candidate now) ledger ≡ recorded)
  unfolding record_signature
  recorded_parts project_id candidate now ledger {signature} {recorded} h =
      elim (Bool-cases (is_project ledger project_id)) [
        | inr others ↦ cc (rw others at h)
        | inl ours ↦
            let (s, e, k) =
              bind-eq-some
                (compute_finding_signature W sha256_hex (to_compute_input project_id candidate)) _
                (rw ours at h) in
            let same : s ≡ signature = ground arith in (rw (← same) e, ground arith)
      ]

  consulted_by_signature :
      (ledger : Ledger) (project_id : Text) (candidate : CandidateFinding) {signature : Text}
      → compute_finding_signature W sha256_hex (to_compute_input project_id candidate)
        ≡ some signature
      → is_suppressed (consult_signature ledger project_id signature) ≡ true
      → is_suppressed (consult_candidate W sha256_hex ledger project_id candidate) ≡ true
  unfolding consult_candidate suppression_decision
  consulted_by_signature ledger project_id candidate h k =
      elim (Bool-cases (has_serialiser candidate.evidence_shape_version)) [
        | inl known ↦ rw (known, h) k
        | inr other ↦ rw other refl
      ]

  -- A candidate that was recorded, and whose signature was then marked as delivered, is suppressed when it
  -- is found again, if the signature was not replaced by another one when it was marked.
  pub consult_candidate-delivered :
      (project_id : Text) (candidate : CandidateFinding) (seen_at delivered_at : ℕ)
      (ledger : Ledger) {signature : Text} {recorded delivered : Ledger}
      → record_signature W sha256_hex project_id candidate seen_at ledger
        ≡ some (signature, recorded)
      → resolve_forward recorded signature ≡ signature
      → mark_signature_delivered project_id signature delivered_at recorded ≡ some delivered
      → is_suppressed (consult_candidate W sha256_hex delivered project_id candidate) ≡ true
  consult_candidate-delivered project_id candidate seen_at delivered_at ledger {signature}
        {recorded} {delivered} h k e =
      let (computed, same) = recorded_parts project_id candidate seen_at ledger h in
      let there : find_by_signature recorded project_id signature ≡ some _ =
        ap (λ l. find_by_signature l project_id signature) (sym same)
        ∙ upsert_seen-find (seen_input project_id signature candidate seen_at) ledger in
      consulted_by_signature delivered project_id candidate computed (
        consult_signature-mark_signature_delivered project_id signature delivered_at recorded
          (ap (find_by_signature recorded project_id) k ∙ there) e)
