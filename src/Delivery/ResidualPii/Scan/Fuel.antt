-- ===== src/Delivery/ResidualPii/Scan/Fuel.antt =====
-- packages/core/src/delivery/residual-pii.ts: the fuel of the loop over the matches of a pattern.
use growthmind.Prelude.{
  ℕ, zero, suc, ◌+◌, ◌≤◌, ◌≡◌, refl, ap, ◌∙◌, Text, Option, none, some, [], ◌∷◌, length, ◌==◌,
  arith, Bool-cases, Option-cases, inl, inr,
}
use growthmind.Regex.{Place, Regex, Match, find_match}
use growthmind.Regex.Progress.{IsForward, find_match-IsForward}
use growthmind.Delivery.ResidualPii.Patterns.{ResidualPiiKind}
use growthmind.Delivery.ResidualPii.Scan.{
  ScanState, span_of, claim, after_unit, next_place, claim_matches, start_of, claim_all,
}

-- The rounds that can be left from a place on.
abbrev rounds_left : Option Place → ℕ
rounds_left none = 0
rounds_left (some place) = suc (length place.rest)

rounds_left-after_unit : (s : Text) → rounds_left (after_unit s) ≤ length s
rounds_left-after_unit [] = omega arith
rounds_left-after_unit (c ∷ s) = omega arith

rounds_left-next_place : (n : ℕ) (m : Match) → IsForward n m → rounds_left (next_place m) ≤ n
rounds_left-next_place n m h = elim (Bool-cases (length m.end.rest == length m.start.rest)) [
  | inl e ↦ rw e (omega (arith, rounds_left-after_unit m.end.rest))
  | inr e ↦ rw e (ground arith)
]

module _ (r : Regex) (kind : ResidualPiiKind) (source : Text) where
  one_more_round :
      (fuel : ℕ) (o : Option Place) (state : ScanState)
      → rounds_left o ≤ fuel
      → claim_matches (suc fuel) r kind source o state ≡ claim_matches fuel r kind source o state
  unfolding claim_matches
  one_more_round zero none state h = refl
  one_more_round zero (some place) state h = absurd (omega arith)
  one_more_round (suc fuel) none state h = refl
  one_more_round (suc fuel) (some place) state h =
      elim (Option-cases (find_match r place.before place.rest)) [
        | inl e ↦ rw e refl
        | inr (m, e) ↦ rw e (
            one_more_round fuel (next_place m) (claim kind (span_of source m) state) (
              rounds_left-next_place fuel m
                (find_match-IsForward fuel r place.before place.rest (omega arith) e)))
      ]

  -- Whatever fuel is added to that of the scan, the loop over the matches of a pattern does the same.
  pub claim_all_enough :
      (extra : ℕ) (state : ScanState)
      → claim_matches (extra + suc (length source)) r kind source (start_of source) state
        ≡ claim_all r kind source state
  claim_all_enough zero state =
      let same_fuel : 0 + suc (length source) ≡ suc (length source) = omega arith in
      ap (λ fuel. claim_matches fuel r kind source (start_of source) state) same_fuel
  claim_all_enough (suc extra) state =
      let fuel = extra + suc (length source) in
      let same_fuel : suc extra + suc (length source) ≡ suc fuel = omega arith in
      ap (λ n. claim_matches n r kind source (start_of source) state) same_fuel
      ∙ one_more_round fuel (start_of source) state (omega arith)
      ∙ claim_all_enough extra state
