-- ===== src/Growth/Derive.antt =====
-- packages/core/src/growth/derive.ts: the roles of surfaces, from what was seen of them. The share 0.3 is
-- the double nearest to three tenths, which dividing three by ten gives. `none` is the ZodError of an
-- observation.
pub mod Kept
pub mod Laws
use growthmind.Prelude.{
  true, false, ℕ, Text, text, text_eq, text_includes, Bool, not, ◌&&◌, ◌||◌, Option, none, some,
  List, [], ◌∷◌, ◌++◌, any, take, filter, is_empty, ltb, ◌==◌, map_get, map_set, map_values,
  split_on, if◌then◌else◌, ◌>>=◌,
}
use growthmind.Doubles.{Doubles}
use growthmind.Platform.{Platform}
use growthmind.Sessions.UrlPath.{is_normalised_url_path, url_path_normalisation_version}
use growthmind.Growth.Worth.{
  SurfaceRole, makes_money, first_value, leads_to_money, keeps_people, unknown, WorthBasis,
  derived_from_product, observed_from_behaviour,
}
use growthmind.Growth.Context.{RoledSurface, roled_surface_limit}

abbrev pub derive_min_sessions : ℕ
derive_min_sessions = 5

abbrev pub money_segments : List Text
money_segments =
    text "checkout"
    ∷ text "billing"
    ∷ text "payment"
    ∷ text "payments"
    ∷ text "subscribe"
    ∷ text "subscription"
    ∷ text "upgrade"
    ∷ text "purchase"
    ∷ text "paywall"
    ∷ []

pub record SurfaceObservation : Type 0 where
  pub surface : Text
  pub normalisation_version : ℕ
  pub sessions : ℕ
  pub first_session_visits_by_returners : ℕ
  pub visits_by_returning_identities : ℕ
  pub sessions_also_reaching_money : ℕ

pub record RoleProposal : Type 0 where
  pub role : SurfaceRole
  pub basis : WorthBasis

pub record DeriveInput : Type 0 where
  pub observations : List SurfaceObservation
  pub existing : List RoledSurface
  pub derived_at : ℕ

abbrev pub proposed : SurfaceRole → WorthBasis → RoleProposal
proposed role basis = record { role = role; basis = basis }

abbrev pub observation_parses : SurfaceObservation → Bool
observation_parses seen = not (is_empty seen.surface) && ltb 0 seen.normalisation_version

abbrev pub is_date : Option ℕ → Bool
is_date none = false
is_date (some at) = true

-- `roled.confirmedAt !== null`
abbrev pub is_confirmed : RoledSurface → Bool
is_confirmed roled = is_date roled.confirmed_at

abbrev pub is_unknown : SurfaceRole → Bool
is_unknown unknown = true
is_unknown _ = false

-- The map of the confirmed surfaces.
unfoldable pub confirmed_surfaces :
    List RoledSurface → List (Text × RoledSurface) → List (Text × RoledSurface)
unfolding map_set
confirmed_surfaces [] confirmed = confirmed
confirmed_surfaces (roled ∷ rest) confirmed =
    confirmed_surfaces rest
      (if is_confirmed roled then map_set text_eq roled.surface roled confirmed else confirmed)

abbrev pub is_present : Option RoledSurface → Bool
is_present none = false
is_present (some roled) = true

-- `confirmed.has(surface)`
abbrev pub has_surface : Text → List (Text × RoledSurface) → Bool
has_surface surface confirmed = is_present (map_get text_eq surface confirmed)

module _ (D : Doubles) (W : Platform) where
  open D use {Double, of_ℕ, div, le}

  abbrev pub share_of : ℕ → ℕ → Double
  share_of part whole = if whole == 0 then of_ℕ 0 else div (of_ℕ part) (of_ℕ whole)

  -- `shareOf(part, whole) >= DERIVE_MIN_SHARE`
  abbrev pub has_share : ℕ → ℕ → Bool
  has_share part whole = le (div (of_ℕ 3) (of_ℕ 10)) (share_of part whole)

  unfoldable pub looks_like_money : Text → Bool
  unfolding split_on text_includes
  looks_like_money surface =
      any (filter (λ s. not (is_empty s)) (split_on 47 (W.to_lower_case surface)))
        (λ segment. any money_segments (λ marker. text_includes segment marker))

  unfoldable pub role_of_observation : SurfaceObservation → RoleProposal
  unfolding looks_like_money
  role_of_observation seen =
      if looks_like_money seen.surface
      then proposed makes_money derived_from_product
      else if ltb seen.sessions derive_min_sessions
      then proposed unknown derived_from_product
      else if has_share seen.first_session_visits_by_returners seen.sessions
      then proposed first_value observed_from_behaviour
      else if has_share seen.sessions_also_reaching_money seen.sessions
      then proposed leads_to_money observed_from_behaviour
      else if has_share seen.visits_by_returning_identities seen.sessions
      then proposed keeps_people observed_from_behaviour
      else proposed unknown derived_from_product

  unfoldable pub propose_role : SurfaceObservation → Option RoleProposal
  unfolding role_of_observation
  propose_role observation =
      if observation_parses observation then some (role_of_observation observation) else none

  abbrev pub is_current : SurfaceObservation → Bool
  is_current observation =
      is_normalised_url_path W observation.surface
      && observation.normalisation_version == url_path_normalisation_version

  abbrev pub roled_as : SurfaceObservation → RoleProposal → List RoledSurface
  roled_as observation proposal =
      if is_unknown proposal.role
      then []
      else record {
        surface = observation.surface;
        role = proposal.role;
        basis = proposal.basis;
        confirmed_at = none;
        normalisation_version = observation.normalisation_version;
      }
        ∷ []

  -- One round of the loop over the observations: the surface that it pushes, if any.
  unfoldable pub propose_surface :
      List (Text × RoledSurface) → SurfaceObservation → Option (List RoledSurface)
  unfolding propose_role map_get text_eq
  propose_surface confirmed observation =
      if has_surface observation.surface confirmed
      then some []
      else if not (is_current observation)
      then some []
      else (do proposal ← propose_role observation; some (roled_as observation proposal))

  unfoldable pub propose_surfaces :
      List (Text × RoledSurface) → List SurfaceObservation → Option (List RoledSurface)
  unfolding propose_surface
  propose_surfaces confirmed [] = some []
  propose_surfaces confirmed (observation ∷ observations) = do
    pushed ← propose_surface confirmed observation
    rest ← propose_surfaces confirmed observations
    some (pushed ++ rest)

  unfoldable pub derive_roled_surfaces : DeriveInput → Option (List RoledSurface)
  unfolding propose_surfaces confirmed_surfaces
  derive_roled_surfaces input = do
    let confirmed = confirmed_surfaces input.existing []
    pushed ← propose_surfaces confirmed input.observations
    some (take roled_surface_limit (map_values text_eq confirmed ++ pushed))
