-- ===== src/Examples/ProductRuns.antt =====
-- What may be said and what is known of a small product: texts for Slack, the scan for personal data,
-- statements of a business, and the worth of its surfaces.
use growthmind.Prelude.{
  ℕ, ◌+◌, suc, ◌≡◌, ◌↔◌, ◌≤◌, ◌⊎◌, refl, Text, text, Bool, true, false, Option, none, some, List,
  [], ◌∷◌, All, length, trim,
}
use growthmind.Doubles.{fractions}
use growthmind.Regex.Laws.{MatchesNowhere}
use growthmind.Sessions.UrlPath.{url_path_normalisation_version}
use growthmind.Delivery.Mrkdwn.{mrkdwn_prefix_length}
use growthmind.Delivery.Mrkdwn.Laws.{IsLongest, mrkdwn_prefix_length-IsLongest}
use growthmind.Delivery.ResidualPii.Patterns.{
  email_address, email_source, detectors, ambiguous_digit_run,
}
use growthmind.Delivery.ResidualPii.Scan.{
  nothing_claimed, start_of, claim_matches, claim_all, is_clean_for_delivery,
}
use growthmind.Delivery.ResidualPii.Scan.Laws.{IsFree, is_clean_for_delivery_iff}
use growthmind.Delivery.ResidualPii.Scan.Fuel.{claim_all_enough}
use growthmind.Growth.Worth.{
  makes_money, leads_to_money, observed_from_behaviour, stated_by_customer,
}
use growthmind.Growth.Context.{
  RoledSurface, GrowthContextInput, GrowthContext, growth_context, worth_of, roled_surface_limit,
}
use growthmind.Growth.Context.Laws.{ReturnsWorthFrom, worth_of-growth_context}
use growthmind.Growth.Derive.{SurfaceObservation, DeriveInput, derive_roled_surfaces}
use growthmind.Growth.Derive.Kept.{IsKept}
use growthmind.Growth.Derive.Laws.{IsProposed, derive_roled_surfaces_lem}
use growthmind.Growth.FactAdmission.{names_an_individual, admitted, not_admitted, admit_statement}
use growthmind.Growth.FactAdmission.Laws.{IsAnswerTo, admit_statement_lem}
use growthmind.Examples.FindingRuns.{small_platform, checkout}

abbrev linked : Text
linked = text "<b>&co"

mrkdwn_prefix_length-IsLongest_example : IsLongest 6 0 linked (mrkdwn_prefix_length linked 6)
mrkdwn_prefix_length-IsLongest_example = mrkdwn_prefix_length-IsLongest linked 6

abbrev mailed_text : Text
mailed_text = text "to a@b.co"

mailed_text_refused : is_clean_for_delivery mailed_text ≡ false
unfolding is_clean_for_delivery growthmind.Regex.find_match
    growthmind.Delivery.ResidualPii.Scan.claim
mailed_text_refused = refl

is_clean_for_delivery_iff_example :
    (is_clean_for_delivery mailed_text ≡ true)
    ↔ (IsFree detectors mailed_text × MatchesNowhere ambiguous_digit_run none mailed_text)
is_clean_for_delivery_iff_example = is_clean_for_delivery_iff mailed_text

claim_all_enough_example :
    claim_matches
      (3 + suc (length mailed_text))
      email_source
      email_address
      mailed_text
      (start_of mailed_text)
      nothing_claimed
    ≡ claim_all email_source email_address mailed_text nothing_claimed
claim_all_enough_example = claim_all_enough email_source email_address mailed_text 3 nothing_claimed

abbrev praise : Text
praise = text " says Jane Smith "

praise_refused : admit_statement praise ≡ not_admitted names_an_individual
unfolding admit_statement growthmind.Prelude.trim_end growthmind.Prelude.trim_start
    growthmind.Delivery.ResidualPii.Scan.scan_residual_pii growthmind.Regex.find_match
praise_refused = refl

regime_admitted : admit_statement (text "Licensed by Gambling Commission") ≡ admitted
unfolding admit_statement growthmind.Prelude.trim_end growthmind.Prelude.trim_start
    growthmind.Delivery.ResidualPii.Scan.scan_residual_pii growthmind.Regex.find_match
regime_admitted = refl

admit_statement_lem_example : IsAnswerTo (trim praise) (admit_statement praise)
admit_statement_lem_example = admit_statement_lem praise

abbrev earning : RoledSurface
earning = record {
  surface = checkout;
  role = makes_money;
  basis = stated_by_customer;
  confirmed_at = some 5;
  normalisation_version = url_path_normalisation_version;
}

abbrev one_surface : GrowthContextInput
one_surface = record { surfaces = earning ∷ []; confirmed_changeable = [] }

abbrev small_context : GrowthContext
small_context = record { by_surface = (checkout, earning) ∷ []; confirmed_changeable = [] }

context_built : growth_context small_platform one_surface ≡ some small_context
unfolding growth_context growthmind.Sessions.UrlPath.is_normalised_url_path
context_built = refl

worth_of-growth_context_example :
    ReturnsWorthFrom (earning ∷ []) checkout (worth_of small_platform (some small_context) checkout)
worth_of-growth_context_example =
    worth_of-growth_context small_platform one_surface small_context checkout context_built

-- The checkout was confirmed, and the tour leads there.
abbrev seen : Text → SurfaceObservation
seen surface = record {
  surface = surface;
  normalisation_version = url_path_normalisation_version;
  sessions = 10;
  first_session_visits_by_returners = 0;
  visits_by_returning_identities = 0;
  sessions_also_reaching_money = 4;
}

abbrev observed_tour : DeriveInput
observed_tour = record {
  observations = seen checkout ∷ seen (text "/tour") ∷ [];
  existing = earning ∷ [];
  derived_at = 7;
}

abbrev touring : RoledSurface
touring = record {
  surface = text "/tour";
  role = leads_to_money;
  basis = observed_from_behaviour;
  confirmed_at = none;
  normalisation_version = url_path_normalisation_version;
}

derived :
    derive_roled_surfaces fractions small_platform observed_tour ≡ some (earning ∷ touring ∷ [])
unfolding derive_roled_surfaces growthmind.Sessions.UrlPath.is_normalised_url_path
derived = refl

derive_roled_surfaces_lem_example :
    (2 ≤ roled_surface_limit)
    × All
        (λ roled.
          IsKept (earning ∷ []) roled ⊎ IsProposed fractions small_platform observed_tour roled)
        (earning ∷ touring ∷ [])
derive_roled_surfaces_lem_example =
    derive_roled_surfaces_lem fractions small_platform observed_tour derived
