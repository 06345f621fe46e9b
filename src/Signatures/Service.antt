-- ===== src/Signatures/Service.antt =====
-- packages/db/src/services/signature-ledger.service.ts, with `resolve` of signature-ancestry.repo.ts:
-- what is recorded of a finding's identity, and whether a finding is delivered. A transaction is one
-- change of the tables; `none` is a thrown Error. The logger is left out.
pub mod Laws
pub mod Dismissal
pub mod Delivered
pub mod Walk
pub mod Ancestry
use growthmind.Prelude.{
  ℕ, zero, suc, ◌+◌, Text, text_eq, Bool, true, false, not, ◌&&◌, ◌||◌, Option, none, some, List,
  [], ◌∷◌, any, map_get, map_set, set_has, set_add, if◌then◌else◌,
}
use growthmind.Findings.Suppression.{
  LedgerRowState, ResolvedLedgerState, resolved, unresolvable_ancestry, unknown_shape_version,
  SuppressionDecision, suppression_decision, suppression_policy_version,
}
use growthmind.Signatures.Ledger.{
  LedgerRow, AncestryReason, AncestryRecord, DismissalRecord, DismissalAction, Ledger,
  find_by_signature, mark_delivered, mark_dismissed, carry_forward, record_dismissal_row,
  find_latest_for_signature, claim_in, is_claimed,
}

abbrev pub ancestry_resolution_max_hops : ℕ
ancestry_resolution_max_hops = 8

pub data AncestryResolution : Type 0 where
  resolved_to : (signature : Text) (hops : ℕ) → AncestryResolution
  cycle depth_cap : AncestryResolution

-- One round: the edge that leaves the current signature, if there is one.
abbrev pub follow :
    List Text → Text → ℕ → (Text → AncestryResolution) → Option AncestryRecord → AncestryResolution
follow visited current hops go none = resolved_to current hops
follow visited current hops go (some edge) =
    let rest = go edge.new_signature in
    if set_has text_eq edge.new_signature visited then cycle else rest

-- The loop over `hops`, of which so many are left.
unfoldable pub resolve_loop : ℕ → ℕ → List Text → Ledger → Text → AncestryResolution
unfolding map_get text_eq
resolve_loop zero hops visited ledger current =
    follow visited current hops (λ next. depth_cap) (map_get text_eq current ledger.edges)
resolve_loop (suc left) hops visited ledger current =
    follow visited current hops
      (λ next. resolve_loop left (hops + 1) (set_add text_eq next visited) ledger next)
      (map_get text_eq current ledger.edges)

abbrev pub resolve : Ledger → Text → AncestryResolution
resolve ledger signature =
    resolve_loop ancestry_resolution_max_hops 0 (signature ∷ []) ledger signature

-- `resolveForward`
abbrev pub forward_of : Text → AncestryResolution → Text
forward_of signature (resolved_to later hops) = later
forward_of signature cycle = signature
forward_of signature depth_cap = signature

abbrev pub resolve_forward : Ledger → Text → Text
resolve_forward ledger signature = forward_of signature (resolve ledger signature)

abbrev pub state_of_row : Option LedgerRow → Option LedgerRowState
state_of_row none = none
state_of_row (some row) =
    some (record { delivered_at = row.delivered_at; dismissed_at = row.dismissed_at })

abbrev pub delivered_of : Option LedgerRowState → Option ℕ
delivered_of none = none
delivered_of (some state) = state.delivered_at

abbrev pub is_instant : Option ℕ → Bool
is_instant none = false
is_instant (some at) = true

abbrev pub is_dismissed : Option LedgerRowState → Bool
is_dismissed none = false
is_dismissed (some state) = is_instant state.dismissed_at

abbrev pub with_latest : Option LedgerRowState → Option DismissalRecord → Option LedgerRowState
with_latest state none = state
with_latest state (some dismissal) =
    some (record { delivered_at = delivered_of state; dismissed_at = some dismissal.dismissed_at })

abbrev pub row_state : Ledger → Text → Text → Option LedgerRowState
row_state ledger project_id signature =
    let state = state_of_row (find_by_signature ledger project_id signature) in
    if is_dismissed state
    then state
    else with_latest state (find_latest_for_signature ledger project_id signature)

abbrev pub ledger_state : Ledger → Text → AncestryResolution → ResolvedLedgerState
ledger_state ledger project_id (resolved_to signature hops) =
    resolved (row_state ledger project_id signature)
ledger_state ledger project_id cycle = unresolvable_ancestry
ledger_state ledger project_id depth_cap = unresolvable_ancestry

unfoldable pub consult_signature : Ledger → Text → Text → Option SuppressionDecision
unfolding resolve_loop suppression_decision find_latest_for_signature map_get text_eq
consult_signature ledger project_id signature =
    suppression_decision (ledger_state ledger project_id (resolve ledger signature))
      suppression_policy_version

abbrev pub is_project : Ledger → Text → Bool
is_project ledger project_id = any ledger.projects (λ p. text_eq p project_id)

abbrev pub may_dismiss : Ledger → Option Text → Bool
may_dismiss ledger none = true
may_dismiss ledger (some user_id) = any ledger.members (λ m. text_eq m user_id)

unfoldable pub mark_signature_delivered : Text → Text → ℕ → Ledger → Option Ledger
unfolding resolve_loop mark_delivered text_eq
mark_signature_delivered project_id signature now ledger =
    if is_project ledger project_id
    then some (mark_delivered project_id (resolve_forward ledger signature) now ledger)
    else none

pub record RecordDismissalInput : Type 0 where
  pub project_id : Text
  pub finding_id : Text
  pub signature : Text
  pub action : DismissalAction
  pub dismissed_by_user_id : Option Text

abbrev pub dismissal_row : RecordDismissalInput → Text → ℕ → DismissalRecord
dismissal_row input signature now = record {
  project_id = input.project_id;
  signature = signature;
  action = input.action;
  dismissed_by_user_id = input.dismissed_by_user_id;
  dismissed_at = now;
}

unfoldable pub record_dismissal : RecordDismissalInput → ℕ → Ledger → Option Ledger
unfolding resolve_loop record_dismissal_row mark_dismissed text_eq
record_dismissal input now ledger =
    let signature = resolve_forward ledger input.signature in
    if is_project ledger input.project_id && may_dismiss ledger input.dismissed_by_user_id
    then some (
        mark_dismissed input.project_id signature now
          (record_dismissal_row input.finding_id (dismissal_row input signature now) ledger))
    else none

pub record RecordAncestryInput : Type 0 where
  pub project_id : Text
  pub old_signature : Text
  pub new_signature : Text
  pub reason : AncestryReason

abbrev pub edge_of : RecordAncestryInput → AncestryRecord
edge_of input = record {
  project_id = input.project_id;
  new_signature = input.new_signature;
  reason = input.reason;
}

abbrev pub with_edge : RecordAncestryInput → Ledger → Option AncestryRecord → Ledger
with_edge input ledger none =
    carry_forward input.project_id input.old_signature input.new_signature
      (record ledger { edges = map_set text_eq input.old_signature (edge_of input) ledger.edges })
with_edge input ledger (some edge) = ledger

unfoldable pub record_ancestry : RecordAncestryInput → Ledger → Option Ledger
unfolding carry_forward map_get map_set text_eq
record_ancestry input ledger =
    if is_project ledger input.project_id
    then some (with_edge input ledger (map_get text_eq input.old_signature ledger.edges))
    else none
