-- ===== src/Signatures/Ledger.antt =====
-- packages/db/src/repositories/finding-signatures.repo.ts, dismissals.repo.ts and signature-ancestry.repo.ts:
-- the tables of the ledger as the queries of one organisation see them. A table is a map by the columns
-- that its conflicts are declared on; an insertion that conflicts updates the row, or leaves it.
use growthmind.Prelude.{
  ℕ, ◌+◌, min, max, Text, text_eq, Bool, true, false, ◌&&◌, Option, none, some, List, filter, head?,
  map_get, map_set, map_values, to_sorted, Sign, compare_numbers,
}
use growthmind.Rules.{FindingClass}

pub record LedgerRow : Type 0 where
  pub symptom_class : FindingClass
  pub surface : Text
  pub signature_tuple_version : ℕ
  pub evidence_shape_version : ℕ
  pub surface_normalisation_version : Option ℕ
  pub first_seen_at : ℕ
  pub last_seen_at : ℕ
  pub times_seen : ℕ
  pub delivered_at : Option ℕ
  pub dismissed_at : Option ℕ

pub data AncestryReason : Type 0 where
  surface_normalisation_version_bump evidence_shape_version_bump signature_tuple_version_bump
        surface_rename surface_derivation_swap :
      AncestryReason

pub data DismissalAction : Type 0 where
  not_useful : DismissalAction

pub record AncestryRecord : Type 0 where
  pub project_id : Text
  pub new_signature : Text
  pub reason : AncestryReason

-- The row of a finding and an action, of which there is one.
pub record DismissalRecord : Type 0 where
  pub project_id : Text
  pub signature : Text
  pub action : DismissalAction
  pub dismissed_by_user_id : Option Text
  pub dismissed_at : ℕ

-- A project and a signature.
abbrev pub LedgerKey : Type 0
LedgerKey = Text × Text

abbrev pub same_ledger_key : LedgerKey → LedgerKey → Bool
same_ledger_key (project, signature) (other_project, other_signature) =
    text_eq project other_project && text_eq signature other_signature

-- Rows by project and signature, dismissals by finding, and edges by the signature that they leave.
pub record Ledger : Type 0 where
  pub projects : List Text
  pub members : List Text
  pub rows : List (LedgerKey × LedgerRow)
  pub dismissals : List (Text × DismissalRecord)
  pub edges : List (Text × AncestryRecord)

abbrev pub find_by_signature : Ledger → Text → Text → Option LedgerRow
find_by_signature ledger project_id signature =
    map_get same_ledger_key (project_id, signature) ledger.rows

abbrev pub with_row : Ledger → Text → Text → LedgerRow → Ledger
with_row ledger project_id signature row = record ledger {
  rows = map_set same_ledger_key (project_id, signature) row ledger.rows;
}

pub record UpsertSeenInput : Type 0 where
  pub project_id : Text
  pub signature : Text
  pub symptom_class : FindingClass
  pub surface : Text
  pub signature_tuple_version : ℕ
  pub evidence_shape_version : ℕ
  pub surface_normalisation_version : Option ℕ
  pub seen_at : ℕ

-- The inserted row, or the row that was there with its `set`.
abbrev pub seen_row : UpsertSeenInput → Option LedgerRow → LedgerRow
seen_row input none = record {
  symptom_class = input.symptom_class;
  surface = input.surface;
  signature_tuple_version = input.signature_tuple_version;
  evidence_shape_version = input.evidence_shape_version;
  surface_normalisation_version = input.surface_normalisation_version;
  first_seen_at = input.seen_at;
  last_seen_at = input.seen_at;
  times_seen = 1;
  delivered_at = none;
  dismissed_at = none;
}
seen_row input (some row) = record row {
  times_seen = row.times_seen + 1;
  last_seen_at = max row.last_seen_at input.seen_at;
}

unfoldable pub upsert_seen : UpsertSeenInput → Ledger → Ledger
unfolding map_get map_set text_eq
upsert_seen input ledger =
    with_row ledger input.project_id input.signature
      (seen_row input (find_by_signature ledger input.project_id input.signature))

abbrev pub coalesce : Option ℕ → Option ℕ → Option ℕ
coalesce none later = later
coalesce (some at) later = some at

-- An update of the row at a key, if there is one.
abbrev pub updated : Ledger → Text → Text → (LedgerRow → LedgerRow) → Option LedgerRow → Ledger
updated ledger project_id signature change none = ledger
updated ledger project_id signature change (some row) =
    with_row ledger project_id signature (change row)

unfoldable pub mark_delivered : Text → Text → ℕ → Ledger → Ledger
unfolding map_get map_set text_eq
mark_delivered project_id signature at ledger =
    updated ledger project_id signature
      (λ row. record row { delivered_at = coalesce row.delivered_at (some at) })
      (find_by_signature ledger project_id signature)

unfoldable pub mark_dismissed : Text → Text → ℕ → Ledger → Ledger
unfolding map_get map_set text_eq
mark_dismissed project_id signature at ledger =
    updated ledger project_id signature
      (λ row. record row { dismissed_at = coalesce row.dismissed_at (some at) })
      (find_by_signature ledger project_id signature)

abbrev pub carried_row : LedgerRow → Option LedgerRow → LedgerRow
carried_row old none = old
carried_row old (some row) = record row {
  first_seen_at = min row.first_seen_at old.first_seen_at;
  last_seen_at = max row.last_seen_at old.last_seen_at;
  times_seen = row.times_seen + old.times_seen;
  delivered_at = coalesce row.delivered_at old.delivered_at;
  dismissed_at = coalesce row.dismissed_at old.dismissed_at;
}

abbrev pub carry_row : Text → Text → Ledger → Option LedgerRow → Ledger
carry_row project_id new_signature ledger none = ledger
carry_row project_id new_signature ledger (some old) =
    with_row ledger project_id new_signature
      (carried_row old (find_by_signature ledger project_id new_signature))

unfoldable pub carry_forward : Text → Text → Text → Ledger → Ledger
unfolding map_get map_set text_eq
carry_forward project_id old_signature new_signature ledger =
    carry_row project_id new_signature ledger (find_by_signature ledger project_id old_signature)

-- A claim inserts its row unless there is one, and returns the row that is there.
abbrev pub claimed_row : {V : Type 0} → V → Option V → V
claimed_row v none = v
claimed_row v (some w) = w

abbrev pub claim_in : {V : Type 0} → Text → V → List (Text × V) → Option V → List (Text × V)
claim_in k v table none = map_set text_eq k v table
claim_in k v table (some w) = table

abbrev pub is_claimed : {V : Type 0} → Option V → Bool
is_claimed none = true
is_claimed (some w) = false

unfoldable pub record_dismissal_row : Text → DismissalRecord → Ledger → Ledger
unfolding map_get map_set text_eq
record_dismissal_row finding_id dismissal ledger = record ledger {
  dismissals =
      claim_in finding_id dismissal ledger.dismissals
        (map_get text_eq finding_id ledger.dismissals);
}

abbrev pub is_dismissal_of : Text → Text → DismissalRecord → Bool
is_dismissal_of project_id signature dismissal =
    text_eq dismissal.project_id project_id && text_eq dismissal.signature signature

abbrev pub compare_latest : DismissalRecord → DismissalRecord → Sign
compare_latest a b = compare_numbers b.dismissed_at a.dismissed_at

unfoldable pub find_latest_for_signature : Ledger → Text → Text → Option DismissalRecord
unfolding to_sorted text_eq
find_latest_for_signature ledger project_id signature = head? (
    to_sorted compare_latest
      (filter (is_dismissal_of project_id signature) (map_values text_eq ledger.dismissals)))
