-- ===== src/Signatures/Service/Laws.antt =====
-- packages/db/src/services/signature-ledger.service.ts: what a row of the ledger decides, and a delivery
-- that is marked and then consulted.
use growthmind.Prelude.{
  text_right, text_left, ℕ, zero, suc, ◌+◌, ◌≡◌, refl, ap, sym, ◌∙◌, Text, text_eq, text_eq_iff,
  text_eq_refl, Bool, true, false, ◌||◌, Option, none, some, List, [], ◌∷◌, map_get, map_set,
  map_get-map_set, set_has, set_add, &&-eq-true, if◌then◌else◌, arith,
}
use growthmind.Findings.Suppression.{
  resolved, SuppressionDecision, suppress, deliver, suppression_decision,
  suppression_policy_version,
}
use growthmind.Signatures.Ledger.{
  LedgerRow, LedgerKey, same_ledger_key, AncestryRecord, DismissalRecord, Ledger, find_by_signature,
  updated, coalesce, mark_delivered, find_latest_for_signature,
}
use growthmind.Signatures.Service.{
  AncestryResolution, resolved_to, cycle, depth_cap, follow, resolve_loop, resolve, forward_of,
  resolve_forward, is_instant, row_state, consult_signature, mark_signature_delivered,
  ancestry_resolution_max_hops, with_latest,
}

abbrev pub is_suppressed : Option SuppressionDecision → Bool
is_suppressed none = false
is_suppressed (some (suppress reason)) = true
is_suppressed (some (deliver reason)) = false

same_ledger_key-eq : (i j : LedgerKey) → same_ledger_key i j ≡ true → i ≡ j
same_ledger_key-eq (a, b) (c, d) h =
    let (e, f) = &&-eq-true (text_eq a c) (text_eq b d) h in
    rw ((text_eq_iff a c).0 e, (text_eq_iff b d).0 f) refl

same_ledger_key_refl : (i : LedgerKey) → same_ledger_key i i ≡ true
same_ledger_key_refl (a, b) = rw (text_eq_refl a, text_eq_refl b) refl

key_left :
    (i j k : LedgerKey) → same_ledger_key i j ≡ true → same_ledger_key i k ≡ same_ledger_key j k
key_left i j k h = ap (λ x. same_ledger_key x k) (same_ledger_key-eq i j h)

key_right :
    (i j k : LedgerKey) → same_ledger_key j k ≡ true → same_ledger_key i j ≡ same_ledger_key i k
key_right i j k h = ap (λ x. same_ledger_key i x) (same_ledger_key-eq j k h)

pub map_get-row :
    (k : LedgerKey) (row : LedgerRow) (rows : List (LedgerKey × LedgerRow))
    → map_get same_ledger_key k (map_set same_ledger_key k row rows) ≡ some row
map_get-row k row rows =
    map_get-map_set same_ledger_key key_left key_right k k row rows
    ∙ ap (λ b. if b then some row else map_get same_ledger_key k rows) (same_ledger_key_refl k)

pub map_get-set_text :
    {V : Type 0} (k : Text) (v : V) (m : List (Text × V))
    → map_get text_eq k (map_set text_eq k v m) ≡ some v
map_get-set_text k v m =
    map_get-map_set text_eq text_left text_right k k v m
    ∙ ap (λ b. if b then some v else map_get text_eq k m) (text_eq_refl k)

follow-same :
    (visited : List Text) (current : Text) (hops : ℕ) (f g : Text → AncestryResolution)
    (o : Option AncestryRecord)
    → ((next : Text) → f next ≡ g next)
    → follow visited current hops f o ≡ follow visited current hops g o
follow-same visited current hops f g none h = refl
follow-same visited current hops f g (some edge) h =
    ap (λ rest. if set_has text_eq edge.new_signature visited then cycle else rest)
      (h edge.new_signature)

-- A walk reads the edges only.
pub resolve_loop-same_edges :
    (left hops : ℕ) (visited : List Text) (a b : Ledger) (current : Text)
    → a.edges ≡ b.edges
    → resolve_loop left hops visited a current ≡ resolve_loop left hops visited b current
unfolding resolve_loop
resolve_loop-same_edges zero hops visited a b current h =
    ap (λ edges. follow visited current hops (λ next. depth_cap) (map_get text_eq current edges)) h
resolve_loop-same_edges (suc left) hops visited a b current h =
    ap
      (λ edges.
        follow visited current hops
          (λ next. resolve_loop left (hops + 1) (set_add text_eq next visited) a next)
          (map_get text_eq current edges))
      h
    ∙ follow-same visited current hops
        (λ next. resolve_loop left (hops + 1) (set_add text_eq next visited) a next)
        (λ next. resolve_loop left (hops + 1) (set_add text_eq next visited) b next)
        (map_get text_eq current b.edges)
        (λ next. resolve_loop-same_edges left (hops + 1) (set_add text_eq next visited) a b next h)

-- What a row that is dismissed or delivered decides.
suppressed_by_state :
    (delivered_at dismissed_at : Option ℕ)
    → (is_instant dismissed_at || is_instant delivered_at) ≡ true
    → is_suppressed (
        suppression_decision
          (resolved (some (record { delivered_at = delivered_at; dismissed_at = dismissed_at })))
          suppression_policy_version)
      ≡ true
unfolding suppression_decision
suppressed_by_state d (some at) h = refl
suppressed_by_state (some at) none h = refl
suppressed_by_state none none h = cc

-- A row of the ledger that is dismissed or was delivered suppresses what resolves to it.
pub suppressed_by_row :
    (ledger : Ledger) (project_id signature : Text) (row : LedgerRow)
    → find_by_signature ledger project_id signature ≡ some row
    → (is_instant row.dismissed_at || is_instant row.delivered_at) ≡ true
    → is_suppressed (
        suppression_decision
          (resolved (row_state ledger project_id signature))
          suppression_policy_version)
      ≡ true
suppressed_by_row ledger project_id signature row h k =
    rw h (
      go row.delivered_at row.dismissed_at (find_latest_for_signature ledger project_id signature)
        k)
  where
    go :
        (delivered_at dismissed_at : Option ℕ) (latest : Option DismissalRecord)
        → (is_instant dismissed_at || is_instant delivered_at) ≡ true
        → is_suppressed (
            suppression_decision
              (resolved (
                if is_instant dismissed_at
                then some (record { delivered_at = delivered_at; dismissed_at = dismissed_at })
                else with_latest
                    (some (record { delivered_at = delivered_at; dismissed_at = dismissed_at }))
                    latest))
              suppression_policy_version)
          ≡ true
    go d (some at) latest h = suppressed_by_state d (some at) h
    go d none none h = suppressed_by_state d none h
    go d none (some dismissal) h = suppressed_by_state d (some dismissal.dismissed_at) refl

-- So does a dismissal of a signature that has no row yet.
pub suppressed_by_latest :
    (ledger : Ledger) (project_id signature : Text) (dismissal : DismissalRecord)
    → find_by_signature ledger project_id signature ≡ none
    → find_latest_for_signature ledger project_id signature ≡ some dismissal
    → is_suppressed (
        suppression_decision
          (resolved (row_state ledger project_id signature))
          suppression_policy_version)
      ≡ true
suppressed_by_latest ledger project_id signature dismissal h k =
    rw (h, k) (suppressed_by_state none (some dismissal.dismissed_at) refl)

-- What is consulted, once the walk is known.
pub consulted :
    (ledger : Ledger) (project_id signature : Text) (r : AncestryResolution)
    → resolve ledger signature ≡ r
    → ((later : Text)
        → forward_of signature r ≡ later
        → is_suppressed (
            suppression_decision
              (resolved (row_state ledger project_id later))
              suppression_policy_version)
          ≡ true)
    → is_suppressed (consult_signature ledger project_id signature) ≡ true
unfolding consult_signature
consulted ledger project_id signature (resolved_to later hops) e f = rw e (f later refl)
consulted ledger project_id signature cycle e f = unfold suppression_decision in rw e refl
consulted ledger project_id signature depth_cap e f = unfold suppression_decision in rw e refl

pub updated-edges :
    (ledger : Ledger) (project_id signature : Text) (change : LedgerRow → LedgerRow)
    (o : Option LedgerRow)
    → (updated ledger project_id signature change o).edges ≡ ledger.edges
updated-edges ledger p s change none = refl
updated-edges ledger p s change (some row) = refl

pub updated-find :
    (ledger : Ledger) (project_id signature : Text) (change : LedgerRow → LedgerRow)
    (row : LedgerRow)
    → find_by_signature (updated ledger project_id signature change (some row)) project_id signature
      ≡ some (change row)
updated-find ledger p s change row = map_get-row (p, s) (change row) ledger.rows

pub coalesce-some : (o : Option ℕ) (at : ℕ) → is_instant (coalesce o (some at)) ≡ true
coalesce-some none at = refl
coalesce-some (some b) at = refl

pub or_right : (a b : Bool) → b ≡ true → (a || b) ≡ true
or_right a b h = ground arith

pub or_left : (a b : Bool) → a ≡ true → (a || b) ≡ true
or_left a b h = ground arith

-- Once a signature was marked as delivered, it is not delivered again, if the ledger had a row for the
-- signature that it resolves to.
pub consult_signature-mark_signature_delivered :
    (project_id signature : Text) (now : ℕ) (ledger : Ledger) {row : LedgerRow} {marked : Ledger}
    → find_by_signature ledger project_id (resolve_forward ledger signature) ≡ some row
    → mark_signature_delivered project_id signature now ledger ≡ some marked
    → is_suppressed (consult_signature marked project_id signature) ≡ true
unfolding mark_signature_delivered mark_delivered
consult_signature-mark_signature_delivered project_id signature now ledger {row} {marked} h e =
    let later = resolve_forward ledger signature in
    let change =
      (λ (r : LedgerRow). record r { delivered_at = coalesce r.delivered_at (some now) }) in
    let same : updated ledger project_id later change (find_by_signature ledger project_id later)
        ≡ marked =
      ground arith in
    let same_row : updated ledger project_id later change (some row) ≡ marked =
      ap (updated ledger project_id later change) (sym h) ∙ same in
    let walked =
      resolve_loop-same_edges ancestry_resolution_max_hops 0 (signature ∷ [])
        (updated ledger project_id later change (some row)) ledger signature refl in
    rw (← same_row) (
      consulted (updated ledger project_id later change (some row)) project_id signature
        (resolve ledger signature) walked
        (λ target q. rw (← q) (
          suppressed_by_row (updated ledger project_id later change (some row)) project_id later
            (change row) (updated-find ledger project_id later change row)
            (or_right (is_instant row.dismissed_at)
              (is_instant (coalesce row.delivered_at (some now)))
              (coalesce-some row.delivered_at now)))))
