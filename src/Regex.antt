-- ===== src/Regex.antt =====
-- The language's regular expressions, as far as the program uses them: the ends of a match at a place of
-- a text, in the order in which backtracking tries them, the leftmost match, and all matches in turn.
pub mod Laws
pub mod Progress
use growthmind.Prelude.{
  ℕ, zero, suc, ◌+◌, ◌-◌, Text, text, Bool, true, false, not, ◌&&◌, ◌||◌, Option, none, some, List,
  [], ◌∷◌, ◌++◌, length, is_empty, in_range, is_digit, is_upper, is_white_space, ◌==◌,
  if◌then◌else◌,
}

-- A place in a text: the unit before it, and what follows it.
pub record Place : Type 0 where
  pub before : Option ℕ
  pub rest : Text

pub data Regex : Type 0 where
  -- One unit of a class.
  unit : (ℕ → Bool) → Regex
  -- `rs`, `r|s`, and `r{least,most}`, which is greedy.
  seq : Regex → Regex → Regex
  either : Regex → Regex → Regex
  repeat : (least most : ℕ) → Regex → Regex
  -- `r{least,}`, greedy, of an `r` that matches no empty text.
  at_least : ℕ → Regex → Regex
  -- A test of the unit before the place: `^`, and a look behind of one unit.
  behind : (Option ℕ → Bool) → Regex
  -- `\b`
  word_boundary : Regex
  -- `(?=r)` and `(?!r)`
  ahead : Regex → Regex
  not_ahead : Regex → Regex

-- `[A-Za-z]`, `[A-Za-z0-9]` and `\w`
abbrev pub is_letter : ℕ → Bool
is_letter c = in_range 97 122 c || is_upper c

abbrev pub is_letter_or_digit : ℕ → Bool
is_letter_or_digit c = is_letter c || is_digit c

abbrev pub is_word : ℕ → Bool
is_word c = is_letter_or_digit c || c == 95

abbrev pub is_word_beside : Option ℕ → Bool
is_word_beside none = false
is_word_beside (some c) = is_word c

abbrev pub first_unit : Text → Option ℕ
first_unit [] = none
first_unit (c ∷ s) = some c

abbrev pub differ : Bool → Bool → Bool
differ true b = not b
differ false b = b

abbrev pub when : Bool → Place → List Place
when true place = place ∷ []
when false place = []

unfoldable pub after_each : (Place → List Place) → List Place → List Place
after_each f [] = []
after_each f (place ∷ places) = f place ++ after_each f places

-- Up to `most` rounds of `f`, the longest first.
unfoldable pub rounds : (Place → List Place) → ℕ → ℕ → Place → List Place
unfolding after_each
rounds f least zero place = when (least == 0) place
rounds f least (suc most) place =
    after_each (rounds f (least - 1) most) (f place) ++ when (least == 0) place

abbrev pub step_unit : (ℕ → Bool) → Text → List Place
step_unit p [] = []
step_unit p (c ∷ s) = when (p c) (record { before = some c; rest = s })

unfoldable pub ends : Regex → Place → List Place
unfolding rounds after_each
ends (unit p) place = step_unit p place.rest
ends (seq r s) place = after_each (ends s) (ends r place)
ends (either r s) place = ends r place ++ ends s place
ends (repeat least most r) place = rounds (ends r) least most place
ends (at_least least r) place = rounds (ends r) least (length place.rest) place
ends (behind test) place = when (test place.before) place
ends word_boundary place =
    when (differ (is_word_beside place.before) (is_word_beside (first_unit place.rest))) place
ends (ahead r) place = when (not (is_empty (ends r place))) place
ends (not_ahead r) place = when (is_empty (ends r place)) place

-- Where a match starts, and where it ends.
pub record Match : Type 0 where
  pub start : Place
  pub end : Place

abbrev pub first_match : Place → List Place → Option Match → Option Match
first_match place [] later = later
first_match place (end ∷ _) later = some (record { start = place; end = end })

-- The leftmost match from a place on: what `exec` finds from `lastIndex`.
unfoldable pub find_match : Regex → Option ℕ → Text → Option Match
unfolding ends
find_match r before [] =
    let place : Place = record { before = before; rest = [] } in
    first_match place (ends r place) none
find_match r before (c ∷ s) =
    let place : Place = record { before = before; rest = c ∷ s } in
    first_match place (ends r place) (find_match r (some c) s)

-- `RegExp.prototype.test`
abbrev pub is_found : Option Match → Bool
is_found none = false
is_found (some m) = true

abbrev pub matches_in : Regex → Text → Bool
matches_in r s = is_found (find_match r none s)

-- Pieces that several patterns are made of.
abbrev pub optional : Regex → Regex
optional r = repeat 0 1 r

abbrev pub literally : Text → Regex
literally [] = repeat 0 0 word_boundary
literally (c ∷ s) = seq (unit (λ d. d == c)) (literally s)
