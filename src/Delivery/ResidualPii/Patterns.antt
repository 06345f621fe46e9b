-- ===== src/Delivery/ResidualPii/Patterns.antt =====
-- packages/core/src/delivery/residual-pii.ts: the patterns of the scan.
use growthmind.Prelude.{
  ℕ, ◌-◌, Text, text, Bool, false, not, ◌||◌, Option, none, some, List, [], ◌∷◌, map, any, in_range,
  is_digit, is_upper, is_white_space, ◌==◌,
}
use growthmind.Regex.{
  Regex, unit, seq, either, repeat, at_least, behind, word_boundary, ahead, not_ahead, optional,
  literally, is_letter, is_letter_or_digit, is_word,
}

pub data ResidualPiiKind : Type 0 where
  email_address credential payment_card ip_address phone_number : ResidualPiiKind

pub record Detector : Type 0 where
  pub kind : ResidualPiiKind
  pub pattern : Regex

abbrev pub credential_prefixes : List Text
credential_prefixes =
    text "sk"
    ∷ text "pk"
    ∷ text "rk"
    ∷ text "api"
    ∷ text "key"
    ∷ text "token"
    ∷ text "bearer"
    ∷ text "ghp"
    ∷ text "gho"
    ∷ text "xoxb"
    ∷ text "xoxa"
    ∷ text "xoxp"
    ∷ text "xoxr"
    ∷ text "xoxs"
    ∷ []

-- `anyCase`: each letter of a word in lower case, or as its capital.
abbrev pub any_case : Text → Regex
any_case [] = repeat 0 0 word_boundary
any_case (c ∷ word) = seq (unit (λ d. d == c || d == c - 32)) (any_case word)

-- `a|b|...`
abbrev pub one_of : Regex → List Regex → Regex
one_of r [] = r
one_of r (s ∷ rs) = either r (one_of s rs)

abbrev pub one_of_words : List Text → Regex
one_of_words [] = not_ahead (repeat 0 0 word_boundary)
one_of_words (word ∷ words) = one_of (any_case word) (map any_case words)

-- `[-_]`, and `[A-Za-z0-9\-_]`
abbrev pub is_joint : ℕ → Bool
is_joint c = c == 45 || c == 95

abbrev pub is_token_unit : ℕ → Bool
is_token_unit c = is_letter_or_digit c || is_joint c

abbrev pub credential_prefix : Regex
credential_prefix = seq (one_of_words credential_prefixes) (unit is_joint)

abbrev pub credential_tail : Regex
credential_tail = at_least 16 (unit is_token_unit)

abbrev pub letters_or_digits : ℕ → Regex
letters_or_digits least = at_least least (unit is_letter_or_digit)

abbrev pub credential_segment : Regex
credential_segment =
    either
      (seq (letters_or_digits 0) (
        seq
          (either (unit is_upper)
            (either (seq (unit is_letter) (unit is_digit)) (seq (unit is_digit) (unit is_letter))))
          (letters_or_digits 0)))
      (letters_or_digits 16)

abbrev pub segment_lookahead : Regex
segment_lookahead = ahead (
    seq (at_least 0 (seq (letters_or_digits 0) (unit is_joint)))
      (seq credential_segment (not_ahead (unit is_letter_or_digit))))

abbrev pub is_slash : Option ℕ → Bool
is_slash none = false
is_slash (some c) = c == 47

abbrev pub credential_in_prose : Regex
credential_in_prose =
    seq (behind (λ o. not (is_slash o))) (seq word_boundary (seq credential_prefix credential_tail))

abbrev pub credential_in_path : Regex
credential_in_path =
    seq (behind is_slash) (seq credential_prefix (seq segment_lookahead credential_tail))

abbrev pub credential_source : Regex
credential_source = either credential_in_prose credential_in_path

-- `[\w.!#$%&'*+/=?^_\`{|}~-]`
abbrev pub is_local_unit : ℕ → Bool
is_local_unit c = is_word c || any (text ".!#$%&'*+/=?^_`{|}~-") (λ d. d == c)

abbrev pub is_host_unit : ℕ → Bool
is_host_unit c = is_word c || c == 45

abbrev pub literal : ℕ → Regex
literal c = unit (λ d. d == c)

abbrev pub email_source : Regex
email_source = seq (at_least 1 (unit is_local_unit)) (
    seq (literal 64) (
      seq (at_least 1 (unit is_host_unit))
        (at_least 1 (seq (literal 46) (at_least 1 (unit is_host_unit))))))

abbrev pub signed_token_source : Regex
signed_token_source = seq word_boundary (
    seq (literally (text "eyJ")) (
      seq (at_least 10 (unit is_token_unit)) (seq (literal 46) (at_least 10 (unit is_token_unit)))))

abbrev pub digit : Regex
digit = unit is_digit

abbrev pub payment_card_source : Regex
payment_card_source = seq word_boundary (
    seq (repeat 12 18 (seq digit (optional (unit (λ c. c == 32 || c == 45)))))
      (seq digit word_boundary))

-- `25[0-5]|2[0-4]\d|1\d\d|[1-9]?\d`
abbrev pub octet : Regex
octet = either (seq (literal 50) (seq (literal 53) (unit (in_range 48 53)))) (
    either (seq (literal 50) (seq (unit (in_range 48 52)) digit))
      (either (seq (literal 49) (seq digit digit)) (seq (optional (unit (in_range 49 57))) digit)))

abbrev pub ip_address_source : Regex
ip_address_source =
    seq word_boundary (seq (repeat 3 3 (seq octet (literal 46))) (seq octet word_boundary))

-- `[\d\s().-]`, and `[\s.-]`
abbrev pub is_phone_unit : ℕ → Bool
is_phone_unit c = is_digit c || (is_white_space c || (c == 40 || (c == 41 || (c == 46 || c == 45))))

abbrev pub is_phone_joint : ℕ → Bool
is_phone_joint c = is_white_space c || (c == 46 || c == 45)

abbrev pub phone_number_source : Regex
phone_number_source =
    either (seq (literal 43) (seq digit (seq (at_least 7 (unit is_phone_unit)) digit))) (
      seq word_boundary (
        seq (repeat 3 3 digit) (
          seq (unit is_phone_joint) (
            seq (repeat 3 3 digit)
              (seq (unit is_phone_joint) (seq (repeat 4 4 digit) word_boundary))))))

abbrev pub detectors : List Detector
detectors =
    record { kind = email_address; pattern = email_source }
    ∷ record { kind = credential; pattern = credential_source }
    ∷ record { kind = credential; pattern = signed_token_source }
    ∷ record { kind = payment_card; pattern = payment_card_source }
    ∷ record { kind = ip_address; pattern = ip_address_source }
    ∷ record { kind = phone_number; pattern = phone_number_source }
    ∷ []

abbrev pub ambiguous_digit_run : Regex
ambiguous_digit_run = seq word_boundary (seq (at_least 12 digit) word_boundary)
