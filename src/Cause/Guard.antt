-- ===== src/Cause/Guard.antt =====
-- packages/core/src/cause/guard.ts: a response with a number, a date, a time span or a word of
-- confidence in any of its claims is refused as a whole.
use growthmind.Prelude.{
  is_digit, ℕ, suc, ◌≡◌, refl, ◌∙◌, ◌↔◌, Text, text, text_includes, Bool, true, false, ◌||◌, List,
  [], ◌∷◌, ◌++◌, any, is_empty, if◌then◌else◌, arith,
}
use growthmind.Platform.{Platform}

abbrev pub cause_temporal_words : List Text
cause_temporal_words =
    text "monday"
    ∷ text "tuesday"
    ∷ text "wednesday"
    ∷ text "thursday"
    ∷ text "friday"
    ∷ text "saturday"
    ∷ text "sunday"
    ∷ text "january"
    ∷ text "february"
    ∷ text "march"
    ∷ text "april"
    ∷ text "may"
    ∷ text "june"
    ∷ text "july"
    ∷ text "august"
    ∷ text "september"
    ∷ text "october"
    ∷ text "november"
    ∷ text "december"
    ∷ text "today"
    ∷ text "yesterday"
    ∷ text "tomorrow"
    ∷ text "recently"
    ∷ text "this week"
    ∷ text "last week"
    ∷ text "currently"
    ∷ text "right now"
    ∷ text "these days"
    ∷ []

abbrev pub cause_duration_words : List Text
cause_duration_words =
    text "second"
    ∷ text "seconds"
    ∷ text "minute"
    ∷ text "minutes"
    ∷ text "hour"
    ∷ text "hours"
    ∷ text "day"
    ∷ text "days"
    ∷ text "week"
    ∷ text "weeks"
    ∷ []

abbrev pub cause_confidence_words : List Text
cause_confidence_words =
    text "confident"
    ∷ text "confidently"
    ∷ text "certain"
    ∷ text "certainly"
    ∷ text "likely"
    ∷ text "unlikely"
    ∷ text "probably"
    ∷ text "possibly"
    ∷ text "definitely"
    ∷ text "severe"
    ∷ text "severity"
    ∷ text "critical"
    ∷ text "maybe"
    ∷ text "might"
    ∷ text "perhaps"
    ∷ []

-- The word before the colon of an offence; the number after it is the claim's index.
pub data OffenceKind : Type 0 where
  number date duration confidence : OffenceKind

pub data CauseGuardVerdict : Type 0 where
  accepted : CauseGuardVerdict
  offended : List (OffenceKind × ℕ) → CauseGuardVerdict

abbrev pub offence_when : Bool → OffenceKind → ℕ → List (OffenceKind × ℕ)
offence_when true kind index = (kind, index) ∷ []
offence_when false kind index = []

module _ (W : Platform) where
  unfoldable pub contains_any : Text → List Text → Bool
  unfolding text_includes
  contains_any statement words = any words (λ word. text_includes (W.to_lower_case statement) word)

  unfoldable pub statement_offences : Text → ℕ → List (OffenceKind × ℕ)
  unfolding contains_any
  statement_offences statement index =
      offence_when (any statement is_digit) number index
      ++ (offence_when (contains_any statement cause_temporal_words) date index
          ++ (offence_when (contains_any statement cause_duration_words) duration index
              ++ offence_when (contains_any statement cause_confidence_words) confidence index))

  -- `forEach`, from the index on.
  unfoldable pub offences_from : ℕ → List Text → List (OffenceKind × ℕ)
  unfolding statement_offences
  offences_from index [] = []
  offences_from index (statement ∷ statements) =
      statement_offences statement index ++ offences_from (suc index) statements

  abbrev pub verdict_of : List (OffenceKind × ℕ) → CauseGuardVerdict
  verdict_of [] = accepted
  verdict_of (offence ∷ offences) = offended (offence ∷ offences)

  unfoldable pub guard_cause_text : List Text → CauseGuardVerdict
  unfolding offences_from
  guard_cause_text statements = verdict_of (offences_from 0 statements)

  -- What a single statement must not have.
  abbrev pub is_prohibited : Text → Bool
  is_prohibited statement =
      any statement is_digit
      || (contains_any statement cause_temporal_words
          || (contains_any statement cause_duration_words
              || contains_any statement cause_confidence_words))

  statement_offences-none :
      (statement : Text) (index : ℕ) (rest : List (OffenceKind × ℕ))
      → is_empty (statement_offences statement index ++ rest)
        ≡ (if is_prohibited statement then false else is_empty rest)
  unfolding statement_offences
  statement_offences-none statement index rest =
      offences_case (any statement is_digit) (contains_any statement cause_temporal_words)
        (contains_any statement cause_duration_words)
        (contains_any statement cause_confidence_words)
    where
      offences_case :
          (a b c d : Bool)
          → is_empty (
              (offence_when a number index
                ++ (offence_when b date index
                    ++ (offence_when c duration index ++ offence_when d confidence index)))
              ++ rest)
            ≡ (if a || (b || (c || d)) then false else is_empty rest)
      offences_case a b c d = ground arith

  offences_from-none :
      (index : ℕ) (statements : List Text)
      → is_empty (offences_from index statements)
        ≡ (if any statements is_prohibited then false else true)
  unfolding offences_from
  offences_from-none index [] = refl
  offences_from-none index (statement ∷ statements) =
      statement_offences-none statement index (offences_from (suc index) statements)
      ∙ both (is_prohibited statement) _ _ (offences_from-none (suc index) statements)
    where
      both :
          (p q : Bool) (e : Bool)
          → e ≡ (if q then false else true)
          → (if p then false else e) ≡ (if p || q then false else true)
      both p q e h = ground arith

  -- A response is accepted exactly if none of its statements has a digit or a word of the three lists;
  -- a single one that does refuses the whole.
  pub guard_cause_text_iff :
      (statements : List Text)
      → (guard_cause_text statements ≡ accepted) ↔ (any statements is_prohibited ≡ false)
  unfolding guard_cause_text
  guard_cause_text_iff statements =
      verdict (offences_from 0 statements) _ (offences_from-none 0 statements)
    where
      verdict :
          (offences : List (OffenceKind × ℕ)) (p : Bool)
          → is_empty offences ≡ (if p then false else true)
          → (verdict_of offences ≡ accepted) ↔ (p ≡ false)
      verdict offences p h = ground arith
