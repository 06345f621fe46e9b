-- ===== src/Growth/Context.antt =====
-- packages/core/src/growth/context.ts, and surfaceWorth of surface-worth.ts: what the customer's product
-- is known to be worth, by surface. `none` is a ZodError, or the Error of a surface that is not normalised.
pub mod Laws
use growthmind.Prelude.{
  ℕ, Text, text_eq, Bool, not, ◌&&◌, Option, none, some, List, [], ◌∷◌, all, length, is_empty, leb,
  ltb, ◌==◌, map_get, map_set, to_set, if◌then◌else◌,
}
use growthmind.Platform.{Platform}
use growthmind.Sessions.UrlPath.{is_normalised_url_path, url_path_normalisation_version}
use growthmind.Growth.Worth.{
  SurfaceRole, WorthBasis, SurfaceWorth, weight_of_role, worth_weight_version, unknown_worth,
}
use growthmind.Growth.Proposable.{ProposalScope, empty_proposal_scope}

abbrev pub roled_surface_limit : ℕ
roled_surface_limit = 200

pub record RoledSurface : Type 0 where
  pub surface : Text
  pub role : SurfaceRole
  pub basis : WorthBasis
  pub confirmed_at : Option ℕ
  pub normalisation_version : ℕ

pub record GrowthContextInput : Type 0 where
  pub surfaces : List RoledSurface
  pub confirmed_changeable : List Text

-- The map by surface, and the set, in the order of insertion.
pub record GrowthContext : Type 0 where
  pub by_surface : List (Text × RoledSurface)
  pub confirmed_changeable : List Text

pub record SurfaceWorthInput : Type 0 where
  pub surface : Text
  pub role : SurfaceRole
  pub basis : WorthBasis
  pub confirmed_at : Option ℕ

-- The loop that fills the map.
unfoldable pub set_surfaces :
    List RoledSurface → List (Text × RoledSurface) → List (Text × RoledSurface)
unfolding map_set
set_surfaces [] by_surface = by_surface
set_surfaces (roled ∷ rest) by_surface =
    set_surfaces rest (map_set text_eq roled.surface roled by_surface)

abbrev pub empty_growth_context : GrowthContext
empty_growth_context = record { by_surface = []; confirmed_changeable = [] }

abbrev pub worth_with : SurfaceWorthInput → SurfaceWorth
worth_with input = record {
  surface = input.surface;
  role = input.role;
  weight = weight_of_role input.role;
  weight_version = worth_weight_version;
  basis = input.basis;
  confirmed_at = input.confirmed_at;
}

module _ (W : Platform) where
  abbrev pub roled_surface_parses : RoledSurface → Bool
  roled_surface_parses roled =
      not (is_empty roled.surface)
      && (is_normalised_url_path W roled.surface && ltb 0 roled.normalisation_version)

  abbrev pub growth_context_parses : GrowthContextInput → Bool
  growth_context_parses input =
      all input.surfaces roled_surface_parses
      && (leb (length input.surfaces) roled_surface_limit
          && (all input.confirmed_changeable (λ s. not (is_empty s))
              && leb (length input.confirmed_changeable) roled_surface_limit))

  unfoldable pub growth_context : GrowthContextInput → Option GrowthContext
  unfolding set_surfaces to_set text_eq
  growth_context input =
      if growth_context_parses input
      then some (record {
        by_surface = set_surfaces input.surfaces [];
        confirmed_changeable = to_set text_eq input.confirmed_changeable;
      })
      else none

  unfoldable pub surface_worth : SurfaceWorthInput → Option SurfaceWorth
  surface_worth input =
      if is_empty input.surface
      then none
      else if not (is_normalised_url_path W input.surface)
      then none
      else some (worth_with input)

  abbrev pub worth_of_roled : Text → Option RoledSurface → Option SurfaceWorth
  worth_of_roled surface none = some (unknown_worth surface)
  worth_of_roled surface (some roled) =
      if not (roled.normalisation_version == url_path_normalisation_version)
      then some (unknown_worth surface)
      else surface_worth (record {
        surface = roled.surface;
        role = roled.role;
        basis = roled.basis;
        confirmed_at = roled.confirmed_at;
      })

  abbrev pub roled_at : Option GrowthContext → Text → Option RoledSurface
  roled_at none surface = none
  roled_at (some context) surface = map_get text_eq surface context.by_surface

  unfoldable pub worth_of : Option GrowthContext → Text → Option SurfaceWorth
  unfolding map_get surface_worth
  worth_of context surface = worth_of_roled surface (roled_at context surface)

abbrev pub proposal_scope_of : Option GrowthContext → ProposalScope
proposal_scope_of none = empty_proposal_scope
proposal_scope_of (some context) = record { confirmed_changeable = context.confirmed_changeable }
