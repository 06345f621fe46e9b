-- ===== src/Findings/Suppression.antt =====
-- packages/core/src/findings/suppression-policy.ts: whether a finding whose identity has been looked
-- up is delivered. Instants are milliseconds; `none` is the Error that an unknown version throws.
use growthmind.Prelude.{ℕ, ◌≡◌, refl, Option, none, some, ◌==◌, if◌then◌else◌, arith}

pub data SuppressionReasonCode : Type 0 where
  dismissed already_delivered not_seen_before seen_not_delivered because_unresolvable_ancestry
        because_unknown_shape_version :
      SuppressionReasonCode

pub record LedgerRowState : Type 0 where
  pub delivered_at : Option ℕ
  pub dismissed_at : Option ℕ

pub data ResolvedLedgerState : Type 0 where
  resolved : Option LedgerRowState → ResolvedLedgerState
  unresolvable_ancestry unknown_shape_version : ResolvedLedgerState

pub data SuppressionDecision : Type 0 where
  suppress deliver : SuppressionReasonCode → SuppressionDecision

abbrev pub suppression_policy_version : ℕ
suppression_policy_version = 1

-- A row of the ledger, by its two instants: dismissed first.
abbrev row_decision : Option ℕ → Option ℕ → SuppressionDecision
row_decision (some _) delivered_at = suppress dismissed
row_decision none (some _) = suppress already_delivered
row_decision none none = deliver seen_not_delivered

unfoldable pub policy_v1 : ResolvedLedgerState → SuppressionDecision
policy_v1 unresolvable_ancestry = suppress because_unresolvable_ancestry
policy_v1 unknown_shape_version = suppress because_unknown_shape_version
policy_v1 (resolved none) = deliver not_seen_before
policy_v1 (resolved (some row)) = row_decision row.dismissed_at row.delivered_at

-- `SUPPRESSION_POLICIES.get(version)`
unfoldable pub suppression_decision : ResolvedLedgerState → ℕ → Option SuppressionDecision
unfolding policy_v1
suppression_decision state version = if version == 1 then some (policy_v1 state) else none

-- The ledger has nothing against a finding of this state.
pub data IsOpen : ResolvedLedgerState → Type 0 where
  never_seen : IsOpen (resolved none)
  seen_only :
      {row : LedgerRowState}
      → row.delivered_at ≡ none
      → row.dismissed_at ≡ none
      → IsOpen (resolved (some row))

row-IsOpen :
    (row : LedgerRowState) (dismissed_at delivered_at : Option ℕ)
    → row.dismissed_at ≡ dismissed_at
    → row.delivered_at ≡ delivered_at
    → {reason : SuppressionReasonCode} → row_decision dismissed_at delivered_at ≡ deliver reason
    → IsOpen (resolved (some row))
row-IsOpen row (some _) delivered_at e d h = absurd (ground arith)
row-IsOpen row none (some _) e d h = absurd (ground arith)
row-IsOpen row none none e d h = seen_only d e

-- A finding is delivered only if its identity was resolved and the ledger has no row for it, or a
-- row that was neither delivered nor dismissed.
pub suppression_decision-IsOpen :
    (state : ResolvedLedgerState) (version : ℕ) {reason : SuppressionReasonCode}
    → suppression_decision state version ≡ some (deliver reason)
    → IsOpen state
unfolding suppression_decision policy_v1
suppression_decision-IsOpen unresolvable_ancestry version h = absurd (ground arith)
suppression_decision-IsOpen unknown_shape_version version h = absurd (ground arith)
suppression_decision-IsOpen (resolved none) version h = never_seen
suppression_decision-IsOpen (resolved (some row)) version {reason} h =
    row-IsOpen row row.dismissed_at row.delivered_at refl refl {reason = reason} (ground arith)

-- Every resolved finding that the ledger has nothing against is delivered by the current policy.
pub suppression_decision_delivers :
    (state : ResolvedLedgerState)
    → IsOpen state
    → (reason : SuppressionReasonCode) × (suppression_decision state suppression_policy_version
        ≡ some (deliver reason))
unfolding suppression_decision policy_v1
suppression_decision_delivers state never_seen = (not_seen_before, refl)
suppression_decision_delivers state (seen_only d e) = (seen_not_delivered, rw (d, e) refl)
