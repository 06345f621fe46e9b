-- ===== src/Growth/FactAdmission.antt =====
-- packages/core/src/growth/fact-admission.ts: the statements that a fact of the business may be.
pub mod Laws
use growthmind.Prelude.{
  ℕ, Text, text, Bool, true, false, not, ◌&&◌, ◌||◌, Option, none, some, List, [], ◌∷◌, map, any,
  filter, length, ltb, is_empty, trim, trim_start, trim_end, in_range, is_upper, is_white_space,
  ◌==◌, if◌then◌else◌, ◌-◌,
}
use growthmind.Regex.{
  Regex, unit, seq, either, repeat, at_least, behind, word_boundary, literally, matches_in,
  find_match, is_letter, is_word,
}
use growthmind.Delivery.ResidualPii.Patterns.{any_case, one_of, literal}
use growthmind.Delivery.ResidualPii.Scan.{scan_residual_pii}
use growthmind.Growth.Facts.{BusinessFact, cap_facts_per_kind}

abbrev pub statement_max : ℕ
statement_max = 400

pub data FactRefusal : Type 0 where
  carries_personal_data names_an_individual too_long empty_statement : FactRefusal

pub data FactAdmission : Type 0 where
  admitted : FactAdmission
  not_admitted : FactRefusal → FactAdmission

abbrev pub white : Regex
white = unit is_white_space

abbrev pub lower_letters : Regex
lower_letters = at_least 1 (unit (in_range 97 122))

-- `[A-Z][a-z]+`, as it stands and under the flag `i`.
abbrev pub capitalised_word : Regex
capitalised_word = seq (unit is_upper) lower_letters

abbrev pub any_word : Regex
any_word = seq (unit is_letter) (at_least 1 (unit is_letter))

-- `(?:[—–]\s*|\bsays\s+)[A-Z][a-z]+\s+[A-Z][a-z]+`
abbrev pub attributed : Regex
attributed =
    seq
      (either (seq (unit (λ c. c == 8_212 || c == 8_211)) (at_least 0 white))
        (seq word_boundary (seq (literally (text "says")) (at_least 1 white))))
      (seq capitalised_word (seq (at_least 1 white) capitalised_word))

-- A letter in either case, and any other unit as it is.
abbrev pub any_case_phrase : Text → Regex
any_case_phrase [] = repeat 0 0 word_boundary
any_case_phrase (c ∷ word) =
    seq (unit (λ d. d == c || (in_range 97 122 c && d == c - 32))) (any_case_phrase word)

abbrev pub titles : Regex
titles = one_of (any_case_phrase (text "ceo")) (
    map any_case_phrase (
      text "cto"
      ∷ text "coo"
      ∷ text "founder"
      ∷ text "co-founder"
      ∷ text "head of"
      ∷ text "director"
      ∷ text "vp"
      ∷ []))

abbrev pub titled : Regex
titled = seq word_boundary (
    seq any_word (
      seq (at_least 1 white) (
        seq any_word (
          seq (at_least 0 white)
            (seq (literal 44) (seq (at_least 0 white) (seq titles word_boundary)))))))

-- `^`, or a unit of white space before.
abbrev pub is_start : Option ℕ → Bool
is_start none = true
is_start (some c) = false

abbrev pub handle : Regex
handle = seq (either (behind is_start) white) (seq (literal 64) (at_least 2 (unit is_word)))

abbrev pub names_an_individual_patterns : List Regex
names_an_individual_patterns = attributed ∷ titled ∷ handle ∷ []

unfoldable pub admit_statement : Text → FactAdmission
admit_statement statement =
    let trimmed = trim statement in
    if is_empty trimmed
    then not_admitted empty_statement
    else if ltb statement_max (length trimmed)
    then not_admitted too_long
    else if not ((scan_residual_pii trimmed).clean)
    then not_admitted carries_personal_data
    else if any names_an_individual_patterns (λ pattern. matches_in pattern trimmed)
    then not_admitted names_an_individual
    else admitted

abbrev pub is_admitted : FactAdmission → Bool
is_admitted admitted = true
is_admitted (not_admitted refusal) = false

unfoldable pub admit_business_facts :
    {Audience : Type 0} → List (BusinessFact Audience) → List (BusinessFact Audience)
unfolding cap_facts_per_kind admit_statement
admit_business_facts facts =
    cap_facts_per_kind (filter (λ fact. is_admitted (admit_statement fact.statement)) facts)
