-- ===== src/Growth/FactAdmission/Laws.antt =====
-- packages/core/src/growth/fact-admission.ts: the statements that are admitted, and the refusals.
use growthmind.Prelude.{
  ◌≤◌, ◌<◌, ◌≡◌, ◌↔◌, refl, Text, Bool, true, false, not, none, List, [], ◌∷◌, All, any, length,
  ltb, is_empty, trim, if◌then◌else◌, arith, Bool-cases, Option-cases, inl, inr,
}
use growthmind.Regex.{Regex, is_found, matches_in, find_match}
use growthmind.Regex.Laws.{MatchesNowhere, find_match-none_iff}
use growthmind.Delivery.ResidualPii.Patterns.{detectors, ambiguous_digit_run}
use growthmind.Delivery.ResidualPii.Scan.{is_clean_for_delivery}
use growthmind.Delivery.ResidualPii.Scan.Laws.{IsFree, is_clean_for_delivery_iff}
use growthmind.Growth.FactAdmission.{
  statement_max, carries_personal_data, names_an_individual, too_long, empty_statement,
  FactAdmission, admitted, not_admitted, names_an_individual_patterns, admit_statement,
}

-- None of the patterns matches anywhere in the text.
abbrev pub NoneMatches : List Regex → Text → Type 0
NoneMatches patterns source = All (λ (r : Regex). MatchesNowhere r none source) patterns

-- What an answer says of the statement, which is read without the white space at its ends.
abbrev pub IsAnswerTo : Text → FactAdmission → Type 0
IsAnswerTo trimmed admitted =
    (is_empty trimmed ≡ false)
    × (length trimmed ≤ 400)
    × IsFree detectors trimmed
    × MatchesNowhere ambiguous_digit_run none trimmed
    × NoneMatches names_an_individual_patterns trimmed
IsAnswerTo trimmed (not_admitted empty_statement) = is_empty trimmed ≡ true
IsAnswerTo trimmed (not_admitted too_long) = 400 < length trimmed
IsAnswerTo trimmed (not_admitted carries_personal_data) =
    ¬ (IsFree detectors trimmed × MatchesNowhere ambiguous_digit_run none trimmed)
IsAnswerTo trimmed (not_admitted names_an_individual) =
    ¬ NoneMatches names_an_individual_patterns trimmed

NoneMatches-iff :
    (patterns : List Regex) (source : Text)
    → (any patterns (λ pattern. matches_in pattern source) ≡ false) ↔ NoneMatches patterns source
NoneMatches-iff [] source = ((λ h. tt), λ h. refl)
NoneMatches-iff (r ∷ patterns) source =
    let (there, back) = NoneMatches-iff patterns source in
    let (nowhere, not_found) = find_match-none_iff r none source in
    (
      (λ h. elim (Option-cases (find_match r none source)) [
        | inl e ↦ (nowhere e, there (rw (is_found, e) at h))
        | inr (m, e) ↦ cc (rw (is_found, e) at h)
      ]),
      λ h. rw (not_found h.0) (back h.1),
    )

answer_of :
    (trimmed : Text) (clean names : Bool)
    → (clean ≡ true) ↔ (IsFree detectors trimmed × MatchesNowhere ambiguous_digit_run none trimmed)
    → (names ≡ false) ↔ NoneMatches names_an_individual_patterns trimmed
    → IsAnswerTo trimmed (
        if is_empty trimmed
        then not_admitted empty_statement
        else if ltb statement_max (length trimmed)
        then not_admitted too_long
        else if not clean
        then not_admitted carries_personal_data
        else if names
        then not_admitted names_an_individual
        else admitted)
answer_of trimmed clean names free nowhere = elim (Bool-cases (is_empty trimmed)) [
  | inl e ↦ rw e e
  | inr e ↦ rw e (elim (Bool-cases (ltb statement_max (length trimmed))) [
    | inl long ↦ rw long (ground arith)
    | inr short ↦ rw short (go clean names free nowhere e (ground arith))
  ])
]
  where
    go :
        (c n : Bool)
        → (c ≡ true) ↔ (IsFree detectors trimmed × MatchesNowhere ambiguous_digit_run none trimmed)
        → (n ≡ false) ↔ NoneMatches names_an_individual_patterns trimmed
        → is_empty trimmed ≡ false
        → length trimmed ≤ 400
        → IsAnswerTo trimmed (
            if not c
            then not_admitted carries_personal_data
            else if n
            then not_admitted names_an_individual
            else admitted)
    go false n f m e short = λ h. cc (f.1 h)
    go true true f m e short = λ h. cc (m.1 h)
    go true false f m e short = let (a, b) = f.0 refl in (e, short, a, b, m.0 refl)

-- A statement is admitted exactly if, without the white space at its ends, it is not empty, has no more
-- than 400 units, and neither a detector of personal data nor a pattern that names a person matches
-- anywhere in it; each refusal names a condition that fails.
pub admit_statement_lem :
    (statement : Text) → IsAnswerTo (trim statement) (admit_statement statement)
unfolding admit_statement is_clean_for_delivery
admit_statement_lem statement =
    answer_of (trim statement) (is_clean_for_delivery (trim statement))
      (any names_an_individual_patterns (λ pattern. matches_in pattern (trim statement)))
      (is_clean_for_delivery_iff (trim statement))
      (NoneMatches-iff names_an_individual_patterns (trim statement))
