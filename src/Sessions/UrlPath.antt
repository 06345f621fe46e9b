-- ===== src/Sessions/UrlPath.antt =====
-- packages/shared/src/sessions/url-path.ts: the path of a page with what could identify a person
-- taken out. A regular expression without the `u` flag reads UTF-16 code units, as the model does.
pub mod Laws
use growthmind.Prelude.{
  ℕ, Text, text, text_eq, Bool, true, false, not, ◌&&◌, ◌||◌, Option, none, some, List, [], ◌∷◌,
  map, filter, any, all, length, is_empty, join_with, leb, ◌==◌, if◌then◌else◌, trim, trim_start,
  trim_end, before_first, split_on, in_range, is_digit, is_hex, is_upper,
}
use growthmind.Platform.{Platform}

abbrev pub url_path_normalisation_version : ℕ
url_path_normalisation_version = 3

abbrev pub slash : ℕ
slash = 47

abbrev pub redacted_segment : Text
redacted_segment = text ":id"

-- `[A-Za-z0-9_+=-]`
abbrev pub is_base64url : ℕ → Bool
is_base64url c =
    is_upper c
    || (in_range 97 122 c || (is_digit c || (c == 95 || (c == 43 || (c == 61 || c == 45)))))

abbrev pub is_run_of : (ℕ → Bool) → ℕ → Text → Bool
is_run_of p least segment = leb least (length segment) && all segment p

-- Hexadecimal groups of the given sizes, in order.
abbrev pub groups_match : List ℕ → List Text → Bool
groups_match [] [] = true
groups_match (n ∷ ns) (group ∷ groups) =
    length group == n && (all group is_hex && groups_match ns groups)
groups_match [] (_ ∷ _) = false
groups_match (_ ∷ _) [] = false

abbrev pub is_email_shaped_segment : Text → Bool
is_email_shaped_segment segment = any segment (λ c. c == 64)

unfoldable pub is_uuid_shaped_segment : Text → Bool
unfolding split_on
is_uuid_shaped_segment segment = groups_match (8 ∷ 4 ∷ 4 ∷ 4 ∷ 12 ∷ []) (split_on 45 segment)

abbrev pub is_hex_run_segment : Text → Bool
is_hex_run_segment segment = is_run_of is_hex 16 segment

abbrev pub is_base64url_token_segment : Text → Bool
is_base64url_token_segment segment =
    let run = filter (λ c. not (c == 46)) segment in
    is_run_of is_base64url 16 run && any run is_upper

abbrev pub is_long_digit_run_segment : Text → Bool
is_long_digit_run_segment segment = is_run_of is_digit 6 segment

unfoldable pub is_identifier_shaped_segment : Text → Bool
unfolding is_uuid_shaped_segment
is_identifier_shaped_segment segment =
    is_email_shaped_segment segment
    || (is_uuid_shaped_segment segment
        || (is_hex_run_segment segment
            || (is_base64url_token_segment segment || is_long_digit_run_segment segment)))

unfoldable pub redact_segment : Text → Text
unfolding is_identifier_shaped_segment
redact_segment segment = if is_identifier_shaped_segment segment then redacted_segment else segment

abbrev pub redact_filled : Text → Text
redact_filled segment = if is_empty segment then segment else redact_segment segment

abbrev pub starts_with_slash : Text → Bool
starts_with_slash [] = false
starts_with_slash (c ∷ s) = c == slash

-- `replaceAll(/\/{2,}/g, "/")`
unfoldable pub collapse_slashes : Text → Text
collapse_slashes [] = []
collapse_slashes (c ∷ s) =
    let rest = collapse_slashes s in if c == slash && starts_with_slash rest then rest else c ∷ rest

unfoldable pub without_trailing_slash : Text → Text
without_trailing_slash [] = []
without_trailing_slash (c ∷ s) =
    let rest = without_trailing_slash s in if is_empty s && c == slash then [] else c ∷ rest

-- The path with its segments redacted, before the lower case.
unfoldable pub redacted_path : Text → Text
unfolding split_on redact_segment join_with
redacted_path path = join_with slash (map redact_filled (split_on slash path))

module _ (W : Platform) where
  open W use {to_lower_case, url_pathname}

  -- From `trimmed` on.
  unfoldable pub normalise_trimmed : Text → Option Text
  unfolding collapse_slashes without_trailing_slash redacted_path text_eq
  normalise_trimmed trimmed =
      let rooted : Text = if starts_with_slash trimmed then trimmed else slash ∷ trimmed in
      let collapsed = collapse_slashes rooted in
      if is_empty trimmed
      then none
      else if text_eq collapsed (slash ∷ [])
      then some (slash ∷ [])
      else some (to_lower_case (redacted_path (without_trailing_slash collapsed)))

  unfoldable pub normalise_path : Option Text → Option Text
  unfolding normalise_trimmed before_first trim_start trim_end
  normalise_path none = none
  normalise_path (some raw) = normalise_trimmed (trim (before_first 63 (before_first 35 raw)))

  abbrev pub path_of_trimmed : Text → Option Text
  path_of_trimmed trimmed = if is_empty trimmed then none else url_pathname trimmed

  unfoldable pub path_of_url : Option Text → Option Text
  unfolding trim_start trim_end
  path_of_url none = none
  path_of_url (some current_url) = path_of_trimmed (trim current_url)

  unfoldable pub normalise_url_path : Option Text → Option Text → Option Text
  unfolding normalise_path path_of_url
  normalise_url_path pathname current_url = elim (normalise_path pathname) [
    | none ↦ normalise_path (path_of_url current_url)
    | some path ↦ some path
  ]

  unfoldable pub is_normalised_url_path : Text → Bool
  unfolding normalise_url_path text_eq
  is_normalised_url_path surface = elim (normalise_url_path (some surface) none) [
    | none ↦ false
    | some path ↦ text_eq path surface
  ]
