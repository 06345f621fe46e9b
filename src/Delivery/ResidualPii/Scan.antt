-- ===== src/Delivery/ResidualPii/Scan.antt =====
-- packages/core/src/delivery/residual-pii.ts: scanResidualPii. The loop over the matches of a pattern
-- takes fuel, the length of the text and one: each match but an empty one ends further on.
pub mod Laws
pub mod Fuel
use growthmind.Prelude.{
  ℕ, zero, suc, ◌+◌, ◌-◌, Text, Bool, true, false, not, ◌&&◌, Option, none, some, List, [], ◌∷◌,
  ◌++◌, any, length, is_empty, ltb, ◌==◌, if◌then◌else◌, to_sorted, Sign, compare_numbers,
}
use growthmind.Regex.{Place, Regex, Match, find_match}
use growthmind.Delivery.ResidualPii.Patterns.{
  ResidualPiiKind, payment_card, Detector, detectors, ambiguous_digit_run,
}

pub record ResidualPiiFinding : Type 0 where
  pub kind : ResidualPiiKind
  pub at : ℕ

pub record ResidualPiiScan : Type 0 where
  pub clean : Bool
  pub findings : List ResidualPiiFinding

pub record Span : Type 0 where
  pub start : ℕ
  pub end : ℕ

-- The arrays that the loops push to.
pub record ScanState : Type 0 where
  pub claimed : List Span
  pub findings : List ResidualPiiFinding

abbrev pub overlaps_claimed : List Span → Span → Bool
overlaps_claimed claimed span =
    any claimed (λ (c : Span). ltb span.start c.end && ltb c.start span.end)

abbrev pub offset_in : Text → Place → ℕ
offset_in source place = length source - length place.rest

abbrev pub span_of : Text → Match → Span
span_of source m = record { start = offset_in source m.start; end = offset_in source m.end }

-- The body of a loop on one match.
unfoldable pub claim : ResidualPiiKind → Span → ScanState → ScanState
claim kind span state = if overlaps_claimed state.claimed span then state else record {
  claimed = state.claimed ++ span ∷ [];
  findings = state.findings ++ record { kind = kind; at = span.start } ∷ [];
}

-- `pattern.lastIndex`, which an empty match moves by one. Behind the end of the text there is no match.
abbrev pub after_unit : Text → Option Place
after_unit [] = none
after_unit (c ∷ s) = some (record { before = some c; rest = s })

abbrev pub next_place : Match → Option Place
next_place m =
    if length m.end.rest == length m.start.rest then after_unit m.end.rest else some m.end

-- The loop goes on while `exec` finds a match.
abbrev pub while_found : (Match → ScanState) → ScanState → Option Match → ScanState
while_found body state none = state
while_found body state (some m) = body m

unfoldable pub claim_matches :
    ℕ → Regex → ResidualPiiKind → Text → Option Place → ScanState → ScanState
claim_matches zero r kind source place state = state
claim_matches (suc fuel) r kind source none state = state
claim_matches (suc fuel) r kind source (some place) state =
    while_found
      (λ m. claim_matches fuel r kind source (next_place m) (claim kind (span_of source m) state))
      state (find_match r place.before place.rest)

abbrev pub start_of : Text → Option Place
start_of source = some (record { before = none; rest = source })

abbrev pub claim_all : Regex → ResidualPiiKind → Text → ScanState → ScanState
claim_all r kind source state =
    claim_matches (suc (length source)) r kind source (start_of source) state

unfoldable pub claim_detectors : List Detector → Text → ScanState → ScanState
unfolding claim_matches
claim_detectors [] source state = state
claim_detectors (detector ∷ rest) source state =
    claim_detectors rest source (claim_all detector.pattern detector.kind source state)

abbrev pub nothing_claimed : ScanState
nothing_claimed = record { claimed = []; findings = [] }

unfoldable pub scan_state : Text → ScanState
unfolding claim_detectors
scan_state source =
    claim_all ambiguous_digit_run payment_card source
      (claim_detectors detectors source nothing_claimed)

abbrev pub compare_findings : ResidualPiiFinding → ResidualPiiFinding → Sign
compare_findings a b = compare_numbers a.at b.at

unfoldable pub scan_residual_pii : Text → ResidualPiiScan
unfolding scan_state to_sorted
scan_residual_pii source =
    let findings = to_sorted compare_findings (scan_state source).findings in
    if is_empty source
    then record { clean = true; findings = [] }
    else record { clean = is_empty findings; findings = findings }

unfoldable pub is_clean_for_delivery : Text → Bool
unfolding scan_residual_pii
is_clean_for_delivery s = (scan_residual_pii s).clean
