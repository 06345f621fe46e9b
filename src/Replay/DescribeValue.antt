-- ===== src/Replay/DescribeValue.antt =====
-- packages/core/src/replay/describe-value.ts: what may be shown of a value that was on a page.
pub mod Laws
use growthmind.Prelude.{
  ℕ, ◌+◌, ◌-◌, Text, text, Bool, true, false, not, ◌&&◌, ◌||◌, Option, none, some, List, [], ◌∷◌,
  ◌++◌, all, any, filter, length, drop, take, is_empty, leb, ◌==◌, if◌then◌else◌, is_white_space,
  trim, trim_start, trim_end, text_eq, starts_with,
}
use growthmind.Regex.{is_letter, is_letter_or_digit, is_word}
use growthmind.Delivery.ResidualPii.Scan.{is_clean_for_delivery}

abbrev pub describe_value_max_length : ℕ
describe_value_max_length = 40

abbrev pub describe_sentence_max_length : ℕ
describe_sentence_max_length = 160

-- `…`
abbrev pub describe_truncation_marker : Text
describe_truncation_marker = 8_230 ∷ []

-- `[A-Za-z0-9._~:/?#=&%+-]`
abbrev pub is_identifier_unit : ℕ → Bool
is_identifier_unit c = is_letter_or_digit c || any (text "._~:/?#=&%+-") (λ d. d == c)

-- `value.replaceAll(/\s+/g, " ")`
abbrev pub starts_space : Text → Bool
starts_space [] = false
starts_space (c ∷ s) = c == 32

unfoldable pub collapse_white_space : Text → Text
collapse_white_space [] = []
collapse_white_space (c ∷ s) =
    let rest = collapse_white_space s in
    if is_white_space c then (if starts_space rest then rest else 32 ∷ rest) else c ∷ rest

-- `[\w+.-]`
abbrev pub is_scheme_unit : ℕ → Bool
is_scheme_unit c = is_word c || (c == 43 || (c == 46 || c == 45))

-- The parts of ABSOLUTE_URL behind `://`: a host without `/?#` and white space, then no white space.
abbrev pub is_host_unit : ℕ → Bool
is_host_unit c = not (c == 47 || (c == 63 || (c == 35 || is_white_space c)))

unfoldable pub host_of : Text → Text
host_of [] = []
host_of (c ∷ s) = let rest = host_of s in if is_host_unit c then c ∷ rest else []

abbrev pub path_behind : Text → Text
path_behind s = drop (length (host_of s)) s

-- What follows `[\w+.-]*://`; no scheme has a colon in it.
unfoldable pub behind_scheme : Text → Option Text
unfolding starts_with
behind_scheme [] = none
behind_scheme (c ∷ s) =
    let rest = behind_scheme s in
    if c == 58
    then (if starts_with s (47 ∷ 47 ∷ []) then some (drop 2 s) else none)
    else if is_scheme_unit c
    then rest
    else none

abbrev pub behind_origin : Text → Option Text
behind_origin [] = none
behind_origin (c ∷ s) = if is_letter c then behind_scheme s else none

abbrev pub shown_path : Text → Text → Text
shown_path host path = if is_empty path || text_eq path (47 ∷ []) then host else path

abbrev pub path_or_value : Text → Option Text → Text
path_or_value value none = value
path_or_value value (some authority) =
    if any (path_behind authority) is_white_space
    then value
    else shown_path (host_of authority) (path_behind authority)

unfoldable pub without_origin : Text → Text
unfolding behind_scheme host_of text_eq
without_origin value = path_or_value value (behind_origin value)

unfoldable pub collapse : Text → Text
unfolding without_origin collapse_white_space trim_start trim_end
collapse value = without_origin (trim (collapse_white_space value))

unfoldable pub is_masked_text : Text → Bool
is_masked_text value =
    let visible = filter (λ c. not (is_white_space c)) value in
    not (is_empty visible) && all visible (λ c. c == 42)

unfoldable pub truncate : Text → Text
unfolding trim_start
truncate value =
    if leb (length value) describe_value_max_length
    then value
    else describe_truncation_marker
      ++ trim_start (
          drop (length value - (describe_value_max_length - length describe_truncation_marker))
            value)

unfoldable pub truncate_sentence : Text → Text
unfolding trim_end
truncate_sentence value =
    if leb (length value) describe_sentence_max_length
    then value
    else trim_end (take (describe_sentence_max_length - length describe_truncation_marker) value)
      ++ describe_truncation_marker

abbrev pub readable_value : Text → Text
readable_value value = truncate (collapse value)

unfoldable pub deliverable_value : Text → Option Text
deliverable_value value =
    let collapsed = collapse value in
    if is_empty collapsed
    then none
    else if not (all collapsed is_identifier_unit)
    then none
    else if not (is_clean_for_delivery collapsed)
    then none
    else some (truncate collapsed)

unfoldable pub deliverable_name : Text → Option Text
deliverable_name value =
    let collapsed = collapse value in
    if is_empty collapsed || is_masked_text collapsed
    then none
    else if not (is_clean_for_delivery collapsed)
    then none
    else some (truncate collapsed)

unfoldable pub deliverable_sentence : Text → Option Text
deliverable_sentence value =
    let collapsed = collapse value in
    if is_empty collapsed || is_masked_text collapsed
    then none
    else if not (is_clean_for_delivery collapsed)
    then none
    else some (truncate_sentence collapsed)
