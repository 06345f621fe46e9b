-- ===== src/Serialise/CanonicalJson.antt =====
-- packages/core/src/serialise/canonical-json.ts, with `JSON.stringify` of a string as the language
-- has it. `none` is the Error that a value without a canonical form throws.
use growthmind.Prelude.{
  ℕ, zero, suc, ◌+◌, ◌/◌, ◌%◌, Text, text, text_eq, compare_texts, to_sorted, Bool, true, false,
  not, ◌&&◌, Option, none, some, List, [], ◌∷◌, ◌++◌, map, ltb, leb, ◌==◌, if◌then◌else◌, ◌>>=◌,
  Sign, join_with,
}

-- A JavaScript number: an integer, or one that `Number.isInteger` refuses. Integers are those whose
-- decimal form has no exponent.
pub data CanonicalNumber : Type 0 where
  natural : ℕ → CanonicalNumber
  negative : ℕ → CanonicalNumber
  not_integer : CanonicalNumber

mutual
  pub data CanonicalValue : Type 0 where
    null_value : CanonicalValue
    text_value : Text → CanonicalValue
    number_value : CanonicalNumber → CanonicalValue
    boolean_value : Bool → CanonicalValue
    array_value : CanonicalValues → CanonicalValue
    object_value : CanonicalFields → CanonicalValue
    -- A Date, a Map, a Set, a function, or an instance of a class.
    foreign_value : CanonicalValue

  pub data CanonicalValues : Type 0 where
    no_values : CanonicalValues
    value_then : CanonicalValue → CanonicalValues → CanonicalValues

  pub data CanonicalFields : Type 0 where
    no_fields : CanonicalFields
    field_then : Text → CanonicalValue → CanonicalFields → CanonicalFields

abbrev pub digit_unit : ℕ → ℕ
digit_unit d = if ltb d 10 then 48 + d else 87 + d

-- The digits of `n` in front of `rest`; `n` digits are more than enough.
unfoldable pub decimal_onto : ℕ → ℕ → Text → Text
decimal_onto zero n rest = digit_unit (n % 10) ∷ rest
decimal_onto (suc fuel) n rest =
    let more = decimal_onto fuel (n / 10) (digit_unit (n % 10) ∷ rest) in
    if ltb n 10 then digit_unit n ∷ rest else more

abbrev pub decimal : ℕ → Text
decimal n = decimal_onto n n []

-- `\u` and four hexadecimal digits.
abbrev pub unicode_escape : ℕ → Text
unicode_escape c =
    92
    ∷ 117
    ∷ digit_unit (c / 4_096)
    ∷ digit_unit (c / 256 % 16)
    ∷ digit_unit (c / 16 % 16)
    ∷ digit_unit (c % 16)
    ∷ []

abbrev pub is_high_surrogate : ℕ → Bool
is_high_surrogate c = leb 55_296 c && ltb c 56_320

abbrev pub is_low_surrogate : ℕ → Bool
is_low_surrogate c = leb 56_320 c && ltb c 57_344

abbrev pub starts_low : Text → Bool
starts_low [] = false
starts_low (c ∷ s) = is_low_surrogate c

-- `paired`: the unit before was the first half of a pair. `follows`: a second half comes next.
abbrev pub escaped_unit : Bool → Bool → ℕ → Text
escaped_unit paired follows c =
    if c == 34
    then 92 ∷ 34 ∷ []
    else if c == 92
    then 92 ∷ 92 ∷ []
    else if c == 8
    then 92 ∷ 98 ∷ []
    else if c == 9
    then 92 ∷ 116 ∷ []
    else if c == 10
    then 92 ∷ 110 ∷ []
    else if c == 12
    then 92 ∷ 102 ∷ []
    else if c == 13
    then 92 ∷ 114 ∷ []
    else if ltb c 32
    then unicode_escape c
    else if is_high_surrogate c && not follows
    then unicode_escape c
    else if is_low_surrogate c && not paired
    then unicode_escape c
    else c ∷ []

unfoldable pub escaped : Bool → Text → Text
escaped paired [] = []
escaped paired (c ∷ s) =
    escaped_unit paired (starts_low s) c ++ escaped (is_high_surrogate c && starts_low s) s

-- `JSON.stringify(text)`
unfoldable pub stringify : Text → Text
unfolding escaped
stringify t = 34 ∷ escaped false t ++ 34 ∷ []

unfoldable pub serialise_number : CanonicalNumber → Option Text
unfolding decimal_onto
serialise_number (natural n) = some (decimal n)
serialise_number (negative n) = some (45 ∷ decimal (suc n))
serialise_number not_integer = none

abbrev pub is_primitive : CanonicalValue → Bool
is_primitive (array_value _) = false
is_primitive (object_value _) = false
is_primitive foreign_value = false
is_primitive _ = true

abbrev pub every_primitive : CanonicalValues → Bool
every_primitive no_values = true
every_primitive (value_then v vs) = is_primitive v && every_primitive vs

-- `sorted.filter((part, index) => index === 0 || part !== sorted[index - 1])`
unfoldable pub without_repeats : List Text → List Text
unfolding text_eq
without_repeats [] = []
without_repeats (part ∷ []) = part ∷ []
without_repeats (part ∷ next ∷ parts) =
    let rest = without_repeats (next ∷ parts) in if text_eq next part then rest else part ∷ rest

abbrev pub bracketed : ℕ → ℕ → List Text → Text
bracketed open_unit close_unit parts = open_unit ∷ join_with 44 parts ++ close_unit ∷ []

unfoldable pub array_text : Bool → List Text → Text
unfolding join_with without_repeats to_sorted compare_texts
array_text primitives parts =
    if primitives
    then bracketed 91 93 (without_repeats (to_sorted compare_texts parts))
    else bracketed 91 93 parts

abbrev pub compare_keys : Text × Text → Text × Text → Sign
compare_keys left right = compare_texts left.0 right.0

abbrev pub field_text : Text × Text → Text
field_text (key, value) = stringify key ++ 58 ∷ value

unfoldable pub object_text : List (Text × Text) → Text
unfolding join_with stringify to_sorted compare_texts
object_text fields = bracketed 123 125 (map field_text (to_sorted compare_keys fields))

unfoldable mutual
  unfolding stringify serialise_number array_text object_text

  pub serialise_value : CanonicalValue → Option Text
  serialise_value null_value = some (text "null")
  serialise_value (text_value t) = some (stringify t)
  serialise_value (number_value n) = serialise_number n
  serialise_value (boolean_value true) = some (text "true")
  serialise_value (boolean_value false) = some (text "false")
  serialise_value (array_value vs) =
      serialise_values vs >>= (λ parts. some (array_text (every_primitive vs) parts))
  serialise_value (object_value fs) = serialise_fields fs >>= (λ fields. some (object_text fields))
  serialise_value foreign_value = none

  pub serialise_values : CanonicalValues → Option (List Text)
  serialise_values no_values = some []
  serialise_values (value_then v vs) =
      serialise_value v >>= (λ part. serialise_values vs >>= (λ parts. some (part ∷ parts)))

  pub serialise_fields : CanonicalFields → Option (List (Text × Text))
  serialise_fields no_fields = some []
  serialise_fields (field_then key v fs) =
      serialise_value v
      >>= (λ part. serialise_fields fs >>= (λ fields. some ((key, part) ∷ fields)))

unfoldable pub canonical_json : CanonicalValue → Option Text
unfolding serialise_value
canonical_json value = serialise_value value
