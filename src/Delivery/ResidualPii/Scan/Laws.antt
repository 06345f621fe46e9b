-- ===== src/Delivery/ResidualPii/Scan/Laws.antt =====
-- packages/core/src/delivery/residual-pii.ts: clean texts and the patterns of the scan.
use growthmind.Prelude.{
  is_empty-of_length, ℕ, zero, suc, ◌≡◌, ◌↔◌, refl, ap, sym, ◌∙◌, subst, Text, true, false, Option,
  none, some, List, [], ◌∷◌, ◌++◌, All, length, is_empty, to_sorted, length-to_sorted, Bool-cases,
  Option-cases, inl, inr,
}
use growthmind.Regex.{Place, Regex, Match, find_match, ends}
use growthmind.Regex.Laws.{MatchesNowhere, find_match-none_iff}
use growthmind.Delivery.ResidualPii.Patterns.{
  ResidualPiiKind, payment_card, Detector, detectors, ambiguous_digit_run,
}
use growthmind.Delivery.ResidualPii.Scan.{
  Span, ScanState, overlaps_claimed, span_of, claim, next_place, claim_matches, start_of, claim_all,
  claim_detectors, nothing_claimed, scan_state, compare_findings, scan_residual_pii,
  is_clean_for_delivery,
}

abbrev Found : ScanState → Type 0
Found state = is_empty state.findings ≡ false

append_filled : {A : Type 0} (xs : List A) (x : A) → is_empty (xs ++ x ∷ []) ≡ false
append_filled [] x = refl
append_filled (y ∷ xs) x = refl

-- Nothing that was found is lost.
claim-Found :
    (kind : ResidualPiiKind) (span : Span) (state : ScanState)
    → Found state
    → Found (claim kind span state)
unfolding claim
claim-Found kind span state h = elim (Bool-cases (overlaps_claimed state.claimed span)) [
  | inl e ↦ rw e h
  | inr e ↦ rw e (append_filled state.findings _)
]

claim_matches-Found :
    (fuel : ℕ) (r : Regex) (kind : ResidualPiiKind) (source : Text) (o : Option Place)
    (state : ScanState)
    → Found state
    → Found (claim_matches fuel r kind source o state)
unfolding claim_matches
claim_matches-Found zero r kind source o state h = h
claim_matches-Found (suc fuel) r kind source none state h = h
claim_matches-Found (suc fuel) r kind source (some place) state h =
    elim (Option-cases (find_match r place.before place.rest)) [
      | inl e ↦ rw e h
      | inr (m, e) ↦ rw e (
          claim_matches-Found fuel r kind source (next_place m)
            (claim kind (span_of source m) state) (claim-Found kind (span_of source m) state h))
    ]

claim_detectors-Found :
    (ds : List Detector) (source : Text) (state : ScanState)
    → Found state
    → Found (claim_detectors ds source state)
unfolding claim_detectors
claim_detectors-Found [] source state h = h
claim_detectors-Found (d ∷ ds) source state h =
    claim_detectors-Found ds source (claim_all d.pattern d.kind source state)
      (claim_matches-Found (suc (length source)) d.pattern d.kind source (start_of source) state h)

-- A pattern that matches somewhere leaves a finding, if nothing is claimed yet.
claim_all-Found :
    (r : Regex) (kind : ResidualPiiKind) (source : Text) {m : Match}
    → find_match r none source ≡ some m
    → Found (claim_all r kind source nothing_claimed)
unfolding claim_matches claim
claim_all-Found r kind source {m} e = rw e (
    claim_matches-Found (length source) r kind source (next_place m)
      (record {
        claimed = span_of source m ∷ [];
        findings = record { kind = kind; at = (span_of source m).start } ∷ [];
      })
      refl)

claim_all-none :
    (r : Regex) (kind : ResidualPiiKind) (source : Text) (state : ScanState)
    → find_match r none source ≡ none
    → claim_all r kind source state ≡ state
unfolding claim_matches
claim_all-none r kind source state e = rw e refl

-- None of the patterns matches.
abbrev NoneMatches : List Detector → Text → Type 0
NoneMatches ds source = All (λ (d : Detector). find_match d.pattern none source ≡ none) ds

abbrev NothingFound : ScanState → Type 0
NothingFound state = is_empty state.findings ≡ true

claim_detectors-none :
    (ds : List Detector) (source : Text)
    → NothingFound (claim_detectors ds source nothing_claimed)
    → NoneMatches ds source
unfolding claim_detectors
claim_detectors-none [] source h = tt
claim_detectors-none (d ∷ ds) source h = elim (Option-cases (find_match d.pattern none source)) [
  | inl e ↦ (
    e,
    claim_detectors-none ds source (
        subst (λ state. NothingFound (claim_detectors ds source state))
          (claim_all-none d.pattern d.kind source nothing_claimed e) h),
  )
  | inr (m, e) ↦
      let found =
        claim_detectors-Found ds source (claim_all d.pattern d.kind source nothing_claimed)
          (claim_all-Found d.pattern d.kind source e) in
      cc (sym h ∙ found)
]

none-claim_detectors :
    (ds : List Detector) (source : Text) (state : ScanState)
    → NoneMatches ds source
    → claim_detectors ds source state ≡ state
unfolding claim_detectors
none-claim_detectors [] source state h = refl
none-claim_detectors (d ∷ ds) source state h =
    ap (claim_detectors ds source) (claim_all-none d.pattern d.kind source state h.0)
    ∙ none-claim_detectors ds source state h.1

ambiguous_none :
    (source : Text)
    → NothingFound (claim_all ambiguous_digit_run payment_card source nothing_claimed)
    → find_match ambiguous_digit_run none source ≡ none
ambiguous_none source h = elim (Option-cases (find_match ambiguous_digit_run none source)) [
  | inl e ↦ e
  | inr (m, e) ↦ cc (sym h ∙ claim_all-Found ambiguous_digit_run payment_card source e)
]

abbrev pub IsFree : List Detector → Text → Type 0
IsFree ds source = All (λ (d : Detector). MatchesNowhere d.pattern none source) ds

scan_state_iff :
    (source : Text)
    → NothingFound (scan_state source)
      ↔ (NoneMatches detectors source × (find_match ambiguous_digit_run none source ≡ none))
unfolding scan_state
scan_state_iff source =
    let before = claim_detectors detectors source nothing_claimed in
    (
      (λ h. elim (Bool-cases (is_empty before.findings)) [
        | inr found ↦ cc (
            sym h
            ∙ claim_matches-Found (suc (length source)) ambiguous_digit_run payment_card source
                (start_of source) before found)
        | inl quiet ↦
            let none_matches = claim_detectors-none detectors source quiet in
            (
              none_matches,
              ambiguous_none source (
                  subst
                    (λ state.
                      NothingFound (claim_all ambiguous_digit_run payment_card source state))
                    (none-claim_detectors detectors source nothing_claimed none_matches) h),
            )
      ]),
      λ h.
          rw
            (
              none-claim_detectors detectors source nothing_claimed h.0,
              claim_all-none ambiguous_digit_run payment_card source nothing_claimed h.1,
            )
            refl,
    )

no_findings :
    (c : ℕ) (s : Text) → is_clean_for_delivery (c ∷ s) ≡ is_empty (scan_state (c ∷ s)).findings
unfolding is_clean_for_delivery scan_residual_pii
no_findings c s =
    is_empty-of_length (to_sorted compare_findings (scan_state (c ∷ s)).findings)
      (scan_state (c ∷ s)).findings
      (length-to_sorted compare_findings (scan_state (c ∷ s)).findings)

empty-IsFree : IsFree detectors [] × MatchesNowhere ambiguous_digit_run none []
unfolding ends
empty-IsFree = ((refl, (refl, (refl, (refl, (refl, (refl, tt)))))), refl)

empty_is_clean : is_clean_for_delivery [] ≡ true
unfolding is_clean_for_delivery
empty_is_clean = refl

NoneMatches-iff : (ds : List Detector) (s : Text) → NoneMatches ds s ↔ IsFree ds s
NoneMatches-iff [] s = ((λ h. tt), λ h. tt)
NoneMatches-iff (d ∷ ds) s =
    let (there, back) = find_match-none_iff d.pattern none s in
    let (there', back') = NoneMatches-iff ds s in
    ((λ h. (there h.0, there' h.1)), λ h. (back h.0, back' h.1))

-- A text may be delivered exactly if no detector matches at any place of it, and neither does the run
-- of twelve digits that only may be a card.
pub is_clean_for_delivery_iff :
    (s : Text)
    → (is_clean_for_delivery s ≡ true)
      ↔ (IsFree detectors s × MatchesNowhere ambiguous_digit_run none s)
is_clean_for_delivery_iff [] = ((λ h. empty-IsFree), λ h. empty_is_clean)
is_clean_for_delivery_iff (c ∷ s) =
    let (there, back) = scan_state_iff (c ∷ s) in
    let (free, none_matches) = NoneMatches-iff detectors (c ∷ s) in
    let (nowhere, not_found) = find_match-none_iff ambiguous_digit_run none (c ∷ s) in
    (
      (λ h. let (quiet, run) = there (sym (no_findings c s) ∙ h) in (free quiet, nowhere run)),
      λ h. no_findings c s ∙ back (none_matches h.0, not_found h.1),
    )
