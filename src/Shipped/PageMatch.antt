-- ===== src/Shipped/PageMatch.antt =====
-- packages/core/src/shipped/page-match.ts: page addresses as people write them, against the normal form.
use growthmind.Prelude.{
  trim_start, trim_end, trim, is_white_space, is_digit, is_upper, ℕ, ◌+◌, Text, text, text_eq,
  starts_with, Bool, false, not, ◌&&◌, ◌||◌, Option, none, some, [], ◌∷◌, any, if◌then◌else◌, ◌==◌,
}
use growthmind.Regex.{is_letter}
use growthmind.Platform.{Platform}
use growthmind.Detect.Types.{SessionTimeline}
use growthmind.Spine.Walk.{session_walk}
use growthmind.Sessions.UrlPath.{normalise_url_path, is_normalised_url_path}

-- What may follow the first letter of a scheme, up to its colon.
abbrev pub scheme_rest : Text → Bool
scheme_rest [] = false
scheme_rest (c ∷ s) =
    c == 58 || ((is_letter c || (is_digit c || (c == 43 || (c == 46 || c == 45)))) && scheme_rest s)

-- `/^[a-z][a-z0-9+.-]*:/i`
abbrev pub has_any_scheme : Text → Bool
has_any_scheme [] = false
has_any_scheme (c ∷ s) = is_letter c && scheme_rest s

-- A letter of either case, against the lower case.
abbrev pub same_letter : ℕ → ℕ → Bool
same_letter lower c = c == lower || (c + 32 == lower && is_upper c)

abbrev pub after_http : Text → Bool
after_http (c ∷ s) =
    starts_with (c ∷ s) (text "://") || (same_letter 115 c && starts_with s (text "://"))
after_http [] = false

-- `/^https?:\/\//i`
abbrev pub has_web_scheme : Text → Bool
has_web_scheme (h ∷ t ∷ u ∷ p ∷ s) =
    same_letter 104 h
    && (same_letter 116 t && (same_letter 116 u && (same_letter 112 p && after_http s)))
has_web_scheme _ = false

unfoldable pub is_plausible_page_address : Text → Bool
unfolding trim_start trim_end starts_with
is_plausible_page_address href =
    let trimmed = trim href in
    if any trimmed is_white_space
    then false
    else not (has_any_scheme trimmed) || has_web_scheme trimmed

module _ (W : Platform) where
  abbrev address_if_normalised : Option Text → Option Text
  address_if_normalised none = none
  address_if_normalised (some path) = if is_normalised_url_path W path then some path else none

  abbrev from_url_or_path : Option Text → Text → Option Text
  from_url_or_path none href = normalise_url_path W (some href) none
  from_url_or_path (some path) href = some path

  unfoldable pub normalised_page_address : Text → Option Text
  unfolding is_plausible_page_address normalise_url_path is_normalised_url_path
  normalised_page_address href =
      let from_url = normalise_url_path W none (some href) in
      if is_plausible_page_address href
      then address_if_normalised (from_url_or_path from_url href)
      else none

  abbrev pub is_address : Option Text → Text → Bool
  is_address none page = false
  is_address (some path) page = text_eq path page

  abbrev pub page_matches : Text → Text → Bool
  page_matches page href = is_address (normalised_page_address href) page

abbrev pub matches_spine_walk : Text → SessionTimeline → Bool
matches_spine_walk page session = any (session_walk session) (λ p. text_eq p page)
