-- ===== src/Cause/CitationGate.antt =====
-- packages/core/src/cause/citation-gate.ts: a claim survives if it cites a beat and every beat that it
-- cites is there. An index is a JavaScript number, of which only a natural one can be in range.
use growthmind.Prelude.{
  ℕ, ◌+◌, ◌≡◌, refl, sym, ◌∙◌, Text, Bool, false, not, ◌&&◌, List, [], ◌∷◌, ◌++◌, filter, all,
  is_empty, ltb, length, if◌then◌else◌, arith, Bool-cases, inl, inr,
}
use mathlib.Core.List.{append-nil, append_assoc}

-- An index that the model gave: a natural number, or a number below zero or with a fraction, the
-- latter with its place among the natural numbers.
pub data BeatIndex : Type 0 where
  at_beat : ℕ → BeatIndex
  below_zero : BeatIndex
  between_beats : (floor : ℕ) → BeatIndex

pub record CauseClaim : Type 0 where
  pub statement : Text
  pub cites_beats : List BeatIndex

pub record CitationGateResult : Type 0 where
  pub survivors : List CauseClaim
  pub dropped_count : ℕ

-- `index >= 0 && index < beatCount`
abbrev pub is_in_range : ℕ → BeatIndex → Bool
is_in_range beat_count (at_beat n) = ltb n beat_count
is_in_range beat_count below_zero = false
is_in_range beat_count (between_beats floor) = ltb floor beat_count

abbrev pub survives : ℕ → CauseClaim → Bool
survives beat_count claim =
    not (is_empty claim.cites_beats) && all claim.cites_beats (is_in_range beat_count)

-- The loop.
unfoldable pub citation_loop : ℕ → List CauseClaim → CitationGateResult → CitationGateResult
citation_loop beat_count [] result = result
citation_loop beat_count (claim ∷ claims) result =
    let kept =
      citation_loop beat_count claims
        (record result { survivors = result.survivors ++ claim ∷ [] }) in
    let dropped =
      citation_loop beat_count claims
        (record result { dropped_count = result.dropped_count + 1 }) in
    if survives beat_count claim then kept else dropped

unfoldable pub apply_citation_gate : List CauseClaim → ℕ → CitationGateResult
unfolding citation_loop
apply_citation_gate claims beat_count =
    citation_loop beat_count claims (record { survivors = []; dropped_count = 0 })

citation_loop_lem :
    (beat_count : ℕ) (claims : List CauseClaim) (result : CitationGateResult)
    → (citation_loop beat_count claims result).survivors
      ≡ result.survivors ++ filter (survives beat_count) claims
unfolding citation_loop
citation_loop_lem beat_count [] result = sym (append-nil result.survivors)
citation_loop_lem beat_count (claim ∷ claims) result =
    elim (Bool-cases (survives beat_count claim)) [
      | inl e ↦ rw e (
          citation_loop_lem beat_count claims
            (record result { survivors = result.survivors ++ claim ∷ [] })
          ∙ append_assoc result.survivors (claim ∷ []) (filter (survives beat_count) claims))
      | inr e ↦ rw e (
          citation_loop_lem beat_count claims
            (record result { dropped_count = result.dropped_count + 1 }))
    ]

citation_loop-count :
    (beat_count : ℕ) (claims : List CauseClaim) (result : CitationGateResult)
    → (citation_loop beat_count claims result).dropped_count
        + length (filter (survives beat_count) claims)
      ≡ result.dropped_count + length claims
unfolding citation_loop
citation_loop-count beat_count [] result = refl
citation_loop-count beat_count (claim ∷ claims) result =
    elim (Bool-cases (survives beat_count claim)) [
      | inl e ↦ rw e (
          omega (
            arith,
            citation_loop-count beat_count claims
                (record result { survivors = result.survivors ++ claim ∷ [] }),
          ))
      | inr e ↦ rw e (
          omega (
            arith,
            citation_loop-count beat_count claims
                (record result { dropped_count = result.dropped_count + 1 }),
          ))
    ]

-- The survivors are, whole and in order, the claims that cite at least one beat and only beats in
-- range; every other claim is counted as dropped.
pub apply_citation_gate_lem :
    (claims : List CauseClaim) (beat_count : ℕ)
    → ((apply_citation_gate claims beat_count).survivors ≡ filter (survives beat_count) claims)
      × ((apply_citation_gate claims beat_count).dropped_count
            + length (apply_citation_gate claims beat_count).survivors
          ≡ length claims)
unfolding apply_citation_gate
apply_citation_gate_lem claims beat_count =
    let start : CitationGateResult = record { survivors = []; dropped_count = 0 } in
    let kept = citation_loop_lem beat_count claims start in
    (kept, rw kept (omega (arith, citation_loop-count beat_count claims start)))
